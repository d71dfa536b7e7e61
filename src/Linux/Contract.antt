-- ===== src/Linux/Contract.antt =====
-- `serial_port_linux_base` as an implementation of the interface.
use lib_sp.Base.{
  if◌then◌else◌, ltb, sym, ◌∙◌, eq_ℤ, Bool-cases, ℕ, true, Option, none, some, List, ℤ, pos, minus,
  ◌≡◌, ◌≢◌, inl, inr, refl, arith,
}
use lib_sp.Effect.{Ends, Ends-weaken, returned}
use lib_sp.Params.Props.{os_is_linux, SpProp}
use lib_sp.Params.Check.{is_right, get_instance}
use lib_sp.Interface.{SerialPort, Op, op_init, op_open, op_close, op_set_read_notify, op_send, call}
use lib_sp.Interface.Contract.{
  View, fresh, ready, opened, Permitted, NamesReceiver, Allowed, Refines, after_init, after_close,
  is_open,
}
use lib_sp.Linux.State.{invalid_value, len_buf_1024}
use lib_sp.Linux.Os.{Os, World}
use lib_sp.Linux.Devices.{DeviceFs, get_available_serial_port}
use lib_sp.Linux.Port.{new, init, open_port, close_port, set_read_notify, is_opened, send, destroy}
use lib_sp.Linux.Live.{threads, is_among}
use lib_sp.Linux.Port.Opening.{Serves}
use lib_sp.Linux.Port.Locking.{Free}
use lib_sp.Utils.Format.{get_version}

module _ (os : Os) (fs : DeviceFs) where
  abbrev pub linux_port : SerialPort
  linux_port = record {
    State = World;
    create = new;
    init = init;
    open_port = open_port os;
    close_port = close_port os;
    set_read_notify = set_read_notify;
    is_opened = is_opened;
    send = send os;
    get_version = get_version true;
    get_available_serial_port = get_available_serial_port fs;
    destroy = destroy os;
  }

module _ (os : Os) where
  -- Nobody holds the mutex, and the object has a descriptor exactly in the state `opened`. After
  -- `init` it has a receiver, and while it is open the handle of a thread that can be joined.
  abbrev pub Shows : View → World → Type 0
  Shows opened w =
      Free w
      × (w.fd ≢ invalid_value)
      × (w.precv_data ≢ none)
      × (is_among w.thread_recv (threads os w.trace) ≡ true)
  Shows ready w = Free w × (w.fd ≡ invalid_value) × (w.precv_data ≢ none)
  Shows fresh w = Free w × (w.fd ≡ invalid_value)

  -- A state that the call `o` may lead to, with its code.
  abbrev Step : Op → View → ℤ → World → Type 0
  Step o v c w' = (v' : View) × Allowed os_is_linux o v c v' × Shows v' w'

  -- The mutex is free, there is a receiver if there was one, and the descriptor and the threads are
  -- as they were.
  record Kept (w u : World) : Type 0 where
    free : Free u
    fd : u.fd ≡ w.fd
    receiver : w.precv_data ≢ none → u.precv_data ≢ none
    handle : u.thread_recv ≡ w.thread_recv
    same_threads : threads os u.trace ≡ threads os w.trace

  Shows-Kept : (v : View) (w u : World) → Kept w u → Shows v w → Shows v u
  Shows-Kept fresh w u k h = (k.free, k.fd ∙ h.1)
  Shows-Kept ready w u k h = (k.free, k.fd ∙ h.1, k.receiver h.2)
  Shows-Kept opened w u k h =
      (k.free, (λ e. h.1 (sym k.fd ∙ e)), k.receiver h.2, rw (k.handle, k.same_threads) h.3)

  Shows-Free : (v : View) (w : World) → Shows v w → Free w
  Shows-Free fresh w h = h.0
  Shows-Free ready w h = h.0
  Shows-Free opened w h = h.0

  Shows-after_init :
      (c : ℤ) (v : View) (w : World)
      → Shows v w
      → (eq_ℤ (pos 0) c ≡ true → w.precv_data ≢ none)
      → Shows (after_init c v) w
  Shows-after_init c fresh w h r = elim (Bool-cases (eq_ℤ (pos 0) c)) [
    | inl e ↦ rw e (h.0, h.1, r e)
    | inr e ↦ rw e h
  ]
  Shows-after_init c ready w h r = h
  Shows-after_init c opened w h r = h

  -- Where the code is 0, the receiver that was named is stored.
  abbrev Initialised : SpProp → Option ℕ → World → ℤ → World → Type 0
  Initialised spp r w c u =
      (c ≡ is_right (get_instance os_is_linux) spp)
      × Kept w u
      × (eq_ℤ (pos 0) c ≡ true → r ≢ none → u.precv_data ≢ none)

  init-Initialised :
      (spp : SpProp) (r : Option ℕ) (w : World)
      → Free w
      → Ends (Initialised spp r w) (λ _. ⊥) (init spp r w)
  unfolding init
  init-Initialised spp none w h = ground arith
  init-Initialised spp (some r) w h = ground arith

  receiver_stored :
      (spp : SpProp) (r : Option ℕ) (v : View) (w u : World) (c : ℤ)
      → NamesReceiver os_is_linux r v
      → Shows v w
      → Initialised spp r w c u
      → eq_ℤ (pos 0) c ≡ true
      → u.precv_data ≢ none
  receiver_stored spp r fresh w u c n h a e = a.2 e (n refl)
  receiver_stored spp r ready w u c n h a e = a.1.receiver h.2
  receiver_stored spp r opened w u c n h a e = a.1.receiver h.2

  init-Shows :
      (spp : SpProp) (r : Option ℕ) (v : View) (w : World)
      → NamesReceiver os_is_linux r v
      → Shows v w
      → Ends (Step (op_init spp r) v) (λ _. ⊥) (init spp r w)
  init-Shows spp r v w n h =
      Ends-weaken (Initialised spp r w) (Step (op_init spp r) v) (init spp r w)
        (init-Initialised spp r w (Shows-Free v w h))
        (λ c u a. (
          after_init c v,
          (a.0, refl),
          Shows-after_init c v u (Shows-Kept v w u a.1 h) (receiver_stored spp r v w u c n h a),
        ))

  close_port-Shows :
      (v : View) (w : World) → Shows v w → Ends (Step op_close v) (λ _. ⊥) (close_port os w)
  unfolding close_port
  close_port-Shows fresh w h = ground arith
  close_port-Shows ready w h = ground arith
  close_port-Shows opened w h = ground arith

  send-Kept :
      (d : List ℕ) (n : ℕ) (w : World)
      → (n ≢ 0 → w.fd ≢ invalid_value)
      → Free w
      → Ends (λ c u. (n ≡ 0 → c ≡ minus 1) × Kept w u) (λ _. ⊥) (send os (some d) n w)
  unfolding send threads
  send-Kept d n w o h = ground arith

  fd-opened : (v : View) (w : World) → v ≡ opened → Shows v w → w.fd ≢ invalid_value
  fd-opened fresh w e h = ground arith
  fd-opened ready w e h = ground arith
  fd-opened opened w e h = h.1

  send-Shows :
      (d : Option (List ℕ)) (n : ℕ) (v : View) (w : World)
      → Permitted os_is_linux (op_send d n) v
      → Shows v w
      → Ends (Step (op_send d n) v) (λ _. ⊥) (send os d n w)
  unfolding send
  send-Shows none n v w p h = (v, (refl, refl), h)
  send-Shows (some d) n v w p h =
      Ends-weaken (λ c u. (n ≡ 0 → c ≡ minus 1) × Kept w u) (Step (op_send (some d) n) v)
        (send os (some d) n w)
        (send-Kept d n w (λ some_data. fd-opened v w (p some_data) h) (Shows-Free v w h))
        (λ c u a. (v, (a.0, refl), Shows-Kept v w u a.1 h))

  destroy-Shows :
      (v : View) (w : World)
      → Shows v w
      → Ends (λ _ u. Shows (after_close v) u) (λ _. ⊥) (destroy os w)
  unfolding destroy
  destroy-Shows fresh w h = ground arith
  destroy-Shows ready w h = ground arith
  destroy-Shows opened w h = ground arith

  is_opened-Shows : (v : View) (w : World) → Shows v w → is_opened w ≡ returned (is_open v) w
  unfolding is_opened
  is_opened-Shows fresh w h = ground arith
  is_opened-Shows ready w h = ground arith
  is_opened-Shows opened w h = ground arith

module _ (os : Os) (serves : Serves os) where
  open_port-Shows :
      (w : World) → Shows os ready w → Ends (Step os op_open ready) (λ _. ⊥) (open_port os w)
  unfolding open_port threads is_among
  open_port-Shows w h = grind (
    arith, serves.documented.errno_set, serves.fcntl_result, serves.tcgetattr_result,
    serves.tcsetattr_result, serves.create_result,
  )

  call-Shows :
      (fs : DeviceFs) (o : Op) (v : View) (w : World)
      → Permitted os_is_linux o v
      → Shows os v w
      → Ends (Step os o v) (λ _. ⊥) (call (linux_port os fs) o w)
  unfolding call set_read_notify
  call-Shows fs (op_init spp r) v w p h = init-Shows os spp r v w p.2 h
  call-Shows fs op_open fresh w p h = ground arith
  call-Shows fs op_open ready w p h = open_port-Shows w h
  call-Shows fs op_open opened w p h = ground arith
  call-Shows fs op_close v w p h = close_port-Shows os v w h
  call-Shows fs (op_set_read_notify n) v w p h = (
    v,
    (refl, refl),
    Shows-Kept os v w
        (record w {
          param = record w.param {
            others = record {
              min_byte_read_notify = if ltb len_buf_1024 n then len_buf_1024 else n;
            };
          };
        })
        (record {
          free = Shows-Free os v w h;
          fd = refl;
          receiver = λ r. r;
          handle = refl;
          same_threads = refl;
        })
        h,
  )
  call-Shows fs (op_send d n) v w p h = send-Shows os d n v w p h

  -- On a system that follows POSIX, on which each device that opens can be set up and a thread can
  -- always be created, the Linux port refines the abstract port; its clients name a receiver.
  pub linux_port-Refines : (fs : DeviceFs) → Refines os_is_linux (linux_port os fs)
  unfolding new
  linux_port-Refines fs = record {
    Shows = Shows os;
    shows_create = (refl, refl);
    shows_call = call-Shows fs;
    shows_is_opened = is_opened-Shows os;
    shows_destroy = destroy-Shows os;
  }
