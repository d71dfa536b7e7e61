-- ===== src/Win/Port/History.antt =====
-- A caller's history of method calls on one port object.
use lib_sp.Base.{List}
pub use lib_sp.Interface.{Op, op_init, op_open, op_close, op_set_read_notify, op_send}
use lib_sp.Effect.{pure, ◌>>=◌, run_all}
use lib_sp.Win.Os.{Os, M}
use lib_sp.Win.Port.{init, close_port, set_read_notify}
use lib_sp.Win.Port.Open.{open_port}
use lib_sp.Win.Port.Send.{send}

module _ (os : Os) where
  unfoldable pub perform : Op → M (Unit {0})
  perform (op_init spp r) = do _ ← init os spp r; pure tt
  perform op_open = do _ ← open_port os; pure tt
  perform op_close = do _ ← close_port os; pure tt
  perform (op_set_read_notify n) = set_read_notify n
  perform (op_send d n) = do _ ← send os d n; pure tt

  abbrev pub run : List Op → M (Unit {0})
  run = run_all perform
