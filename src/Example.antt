-- ===== src/Example.antt =====
-- example/shared/main.cc: the class `serial_port` and `main`, as a client of the interface. What is
-- printed is a list of messages; prompts, counters and pauses are left out.
pub mod Calls
pub mod Laws
pub mod Printing
pub mod Sending
pub mod Receiving
use lib_sp.Base.{
  ℕ, zero, suc, Bool, true, false, not, Option, none, some, List, [], ◌∷◌, ◌++◌, map, ℤ, pos,
  negsuc, minus, eq_ℤ, ◌==◌, length, codes, if◌then◌else◌,
}
use lib_sp.Effect.{M, Outcome, returned, blocked, pure, ◌>>=◌, ◌>>◌}
use lib_sp.Params.Props.{Platform, os_is_win, os_is_linux, SpProp, sp_prop_zero, SpNameDesc}
use lib_sp.Interface.{SerialPort, sp_create, sp_release}
use lib_sp.Utils.Numbers.{to_string}

pub data Message : Type 0 where
  no_object : Message
  available : SpNameDesc → Message
  init_error : ℤ → Message
  init_done : Message
  open_error : ℤ → Message
  not_open : Message
  open_done : Message
  version_is : List ℕ → Message
  send_failed : Message
  send_done : Message
  waits : Message
  close_failed : ℤ → Message
  close_done : Message

abbrev pub str_data : List ℕ
str_data = codes "123ABC-+="

-- The object itself, where it is handed to `init` as the receiver.
abbrev pub this : ℕ
this = 0

abbrev pub not_created : ℤ
not_created = minus 10

module _ (p : SerialPort) where
  -- The object `serial_port` with its pointer, and what was printed, newest first.
  pub record Client : Type 0 where
    pub psp : Option p.State
    pub printed : List Message

  -- A method of the port behind the pointer, or a value where that is null.
  unfoldable pub through : {A : Type 0} → A → M p.State A → M Client A
  through a m c = elim c.psp [
    | none ↦ returned a c
    | some s ↦ elim (m s) [
      | returned b t ↦ returned b (record c { psp = some t })
      | blocked t ↦ blocked (record c { psp = some t })
    ]
  ]

  unfoldable pub print_message : Message → M Client (Unit {0})
  print_message m c = returned tt (record c { printed = m ∷ c.printed })

  unfoldable pub print_all : List Message → M Client (Unit {0})
  unfolding print_message
  print_all [] = pure tt
  print_all (m ∷ ms) = do print_message m; print_all ms

  abbrev pub init : SpProp → M Client ℤ
  init spp = through not_created (p.init spp (some this))

  abbrev pub open_port : M Client ℤ
  open_port = through not_created p.open_port

  abbrev pub close_port : M Client ℤ
  close_port = through not_created p.close_port

  abbrev pub is_opened : M Client Bool
  is_opened = through false p.is_opened

  abbrev pub send : List ℕ → ℕ → M Client ℤ
  send pdata data_len = through not_created (p.send (some pdata) data_len)

  unfoldable pub get_version : M Client (List ℕ)
  get_version c = returned (elim c.psp [ none ↦ [] | some _ ↦ p.get_version ]) c

  unfoldable pub get_avail_serial_port : M Client (List SpNameDesc)
  get_avail_serial_port c =
      returned (elim c.psp [ none ↦ [] | some _ ↦ p.get_available_serial_port ]) c

  -- The destructor.
  unfoldable pub destroy : Bool → M Client (Unit {0})
  unfolding through
  destroy runs_destructor c = through tt (sp_release p runs_destructor c.psp) c

  -- The loop that sends, at most `n` times.
  unfoldable pub send_loop : ℕ → M Client (Unit {0})
  unfolding print_message
  send_loop zero = pure tt
  send_loop (suc n) = do
    ret_val ← send str_data (length str_data)
    elim (eq_ℤ (pos 0) ret_val) [
      | true ↦ print_message send_failed
      | false ↦ (do print_message send_done; send_loop n)
    ]

  -- What `main` does between `open` and `close`; on Linux `is_to_send` is false.
  unfoldable pub work : Platform → ℤ → M Client (Unit {0})
  unfolding send_loop print_message
  work os_is_win is_send = if eq_ℤ (pos 1) is_send then send_loop 100 else print_message waits
  work os_is_linux is_send = print_message waits

  unfoldable pub properties : Platform → ℤ → SpProp
  unfolding to_string
  properties os_is_win sp_id = record sp_prop_zero {
    name = codes "COM" ++ to_string sp_id;
    is_to_log = true;
  }
  properties os_is_linux sp_id = record sp_prop_zero { name = codes "/dev/ttyS0" }

  -- `main` from the last call of `close` on.
  unfoldable pub finish : M Client (Unit {0})
  unfolding print_message
  finish = do
    ret_val ← close_port
    print_message (if eq_ℤ (pos 0) ret_val then close_done else close_failed ret_val)

  -- An error that `main` reports before it closes the port.
  unfoldable pub give_up : Message → M Client (Unit {0})
  unfolding print_message
  give_up m = do print_message m; _ ← close_port; pure tt

  -- `main` from `is_opened` on.
  unfoldable pub use_port : Platform → ℤ → M Client (Unit {0})
  unfolding work finish get_version print_message
  use_port os is_send = do
    is_open ← is_opened
    if not is_open then print_message not_open else (do
      print_message open_done
      str_ver ← get_version
      print_message (version_is str_ver)
      work os is_send
      finish)

  -- `main` from `open` on.
  unfoldable pub open_and_use : Platform → ℤ → M Client (Unit {0})
  unfolding give_up use_port
  open_and_use os is_send = do
    ret_val ← open_port
    if not (eq_ℤ (pos 0) ret_val) then give_up (open_error ret_val) else use_port os is_send

  -- `main` from `init` on.
  unfoldable pub init_and_use : Platform → ℤ → ℤ → M Client (Unit {0})
  unfolding properties give_up open_and_use print_message
  init_and_use os sp_id is_send = do
    ret_val ← init (properties os sp_id)
    if not (eq_ℤ (pos 0) ret_val)
        then give_up (init_error ret_val)
        else (do print_message init_done; open_and_use os is_send)

  -- `main` with an object.
  unfoldable pub run : Platform → ℤ → ℤ → M Client (Unit {0})
  unfolding get_avail_serial_port print_all init_and_use
  run os sp_id is_send = do
    sp_list ← get_avail_serial_port
    print_all (map available sp_list)
    init_and_use os sp_id is_send

  -- `main`; the two allocations may fail. The object is destroyed where `main` returns.
  unfoldable pub main : Bool → Platform → Bool → Bool → ℤ → ℤ → Outcome Client (Unit {0})
  unfolding run destroy print_message
  main runs_destructor os has_object has_memory sp_id is_send = elim has_object [
    | false ↦ print_message no_object (record { psp = none; printed = [] })
    | true ↦
        (do run os sp_id is_send; destroy runs_destructor)
          (record { psp = sp_create p has_memory; printed = [] })
  ]
