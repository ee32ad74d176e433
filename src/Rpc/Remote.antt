-- ===== src/Rpc/Remote.antt =====
-- A driver behind the client and the server, described from the driver alone.
use p2box.Rpc.Client.{
  state_or_error, decode_state, decode_number, decode_text, rpc_get_state, rpc_get_create_flags,
  text_or_empty, discard, call_as, rpc_string_call, call_method, InternalClient, rpc_driver,
}
use p2box.Drivers.{checked_answer, call, Method, Driver, StateAnswer}
use p2box.Go.Laws.{Result-cases}
use p2box.Go.{lift, pure, ◌>>=◌, Error, panic, server_error, Result, ok, err, Go}
use p2box.Base.{fun_ext, String, none, some, ◌≡◌, refl, inl, inr}
use p2box.Rpc.Server.{text_method, done_method, trapped_create, ServerDriver, serve}
use p2box.State.{State}
use p2box.Rpc

-- What a caller sees of an error of the server: its text, or `lost` where a panic ended the server.
abbrev pub sent_error : Error → Error → Error
sent_error lost (panic s) = lost
sent_error lost e = server_error e

abbrev pub sent : {A : Type 0} → Error → Result A → Result A
sent lost (ok a) = ok a
sent lost (err e) = err (sent_error lost e)

module _ {W A : Type 0} (lost : Error) where
  abbrev pub through : Go W A → Go W A
  through m w = let (r, w') = m w in (sent lost r, w')

-- net/rpc: the client is connected to a server that registered the methods under the name.
abbrev pub Serves : {W : Type 0} → Error → Rpc.RpcClient W → String → ServerDriver W → Type 0
Serves {W} lost client name server =
    (m : String) (args : Rpc.Args W) (w : W)
    → client name m args w ≡ through lost (serve server m args) w

abbrev pub remote_state : Error → StateAnswer → StateAnswer
remote_state lost (s, none) = (s, none)
remote_state lost (s, some e) = (State.error, some (sent_error lost e))

abbrev pub remote_get_state : {W : Type 0} → Error → Driver W → Method W StateAnswer
remote_get_state lost d w = let (a, w') = d.get_state w in (remote_state lost a, w')

-- The methods of the driver, with their errors sent: only `create` survives a panic, and only
-- `get_state` answers beside its error.
abbrev pub remote : {W : Type 0} → Error → ServerDriver W → Driver W
remote lost server =
    let d = server.actual_driver in
    record {
      create = through lost (trapped_create server);
      driver_name = d.driver_name;
      get_create_flags = d.get_create_flags;
      get_ip = through lost d.get_ip;
      get_machine_name = d.get_machine_name;
      get_ssh_hostname = through lost d.get_ssh_hostname;
      get_ssh_key_path = d.get_ssh_key_path;
      get_ssh_port = through lost d.get_ssh_port;
      get_ssh_username = d.get_ssh_username;
      get_url = through lost d.get_url;
      get_state = remote_get_state lost d;
      kill = through lost d.kill;
      pre_create_check = through lost d.pre_create_check;
      remove = through lost d.remove;
      restart = through lost d.restart;
      set_config_from_flags = λ flags. through lost (d.set_config_from_flags flags);
      start = through lost d.start;
      stop = through lost d.stop;
    }

-- A value comes back as it was sent, and an error as a caller sees it.
decoded_sent :
    {W A : Type 0} (lost : Error) (m : Go W A) (encode : A → Rpc.Reply)
    (decode : Rpc.Reply → Result A)
    → ((a : A) → decode (encode a) ≡ ok a)
    → (w : W)
    → (through lost (m >>= λ a. pure (encode a)) >>= λ reply. lift (decode reply)) w
      ≡ through lost m w
decoded_sent lost m encode decode back w = elim (Result-cases (m w).0) [
  | inl (a, e) ↦ rw (e, back a) refl
  | inr (error, e) ↦ rw e refl
]

answer_sent :
    {W : Type 0} (lost : Error) (a : StateAnswer) (w : W)
    → (let reply =
          through lost ((λ (v : W). (checked_answer a, v)) >>= λ s. pure (Rpc.state_reply s)) in
        let (r, w') = (reply >>= λ b. lift (decode_state b)) w in
        ◌≡◌ {A = StateAnswer × W} (state_or_error r, w') (remote_state lost a, w))
answer_sent lost (s, none) w = refl
answer_sent lost (s, some e) w = refl

module _ {W : Type 0} (lost : Error) (server : ServerDriver W) (ic : InternalClient W)
    (serves : Serves lost ic.rpc_client ic.rpc_service_name server) where
  value_sent :
      {A : Type 0} (method : String) (args : Rpc.Args W) (m : Go W A) (encode : A → Rpc.Reply)
      (decode : Rpc.Reply → Result A)
      → ((a : A) → decode (encode a) ≡ ok a)
      → ((w : W) → serve server method args w ≡ (m >>= λ a. pure (encode a)) w)
      → call_as ic decode method args ≡ through lost m
  unfolding call_method
  value_sent method args m encode decode back is_m =
      fun_ext λ w. rw (serves method args w, is_m w) (decoded_sent lost m encode decode back w)

  text_sent :
      (method : String) (m : Go W String)
      → ((w : W) → serve server method Rpc.no_args w ≡ text_method m Rpc.no_args w)
      → rpc_string_call ic method ≡ through lost m
  text_sent method m is_m =
      value_sent method Rpc.no_args m Rpc.text_reply decode_text (λ _. refl) is_m

  done_sent :
      (method : String) (args : Rpc.Args W) (m : Go W Unit)
      → ((w : W) → serve server method args w ≡ done_method m Rpc.no_args w)
      → call_as ic discard method args ≡ through lost m
  done_sent method args m is_m =
      value_sent method args m (λ _. Rpc.no_reply) discard (λ _. refl) is_m

  plain_sent :
      (method : String) (m : Method W String)
      → ((w : W) → serve server method Rpc.no_args w ≡ text_method (call m) Rpc.no_args w)
      → text_or_empty ic method ≡ m
  unfolding call_method
  plain_sent method m is_m = fun_ext λ w. rw (serves method Rpc.no_args w, is_m w) refl

  flags_sent : rpc_get_create_flags ic ≡ server.actual_driver.get_create_flags
  unfolding call_method serve
  flags_sent = fun_ext λ w. rw (serves Rpc.get_create_flags_method Rpc.no_args w) refl

  state_sent : rpc_get_state ic ≡ remote_get_state lost server.actual_driver
  unfolding call_method serve
  state_sent = fun_ext λ w.
      rw (serves Rpc.get_state_method Rpc.no_args w)
        (let (a, w') = server.actual_driver.get_state w in answer_sent lost a w')

  -- Whoever holds the client sees the driver of the server, each method with the method of its name
  -- and with its result.
  pub rpc_driver-remote : rpc_driver ic ≡ remote lost server
  unfolding rpc_driver serve
  rpc_driver-remote = λ i. record {
    create = done_sent Rpc.create_method Rpc.no_args (trapped_create server) (λ _. refl) i;
    driver_name = plain_sent Rpc.driver_name_method d.driver_name (λ _. refl) i;
    get_create_flags = flags_sent i;
    get_ip = text_sent Rpc.get_ip_method d.get_ip (λ _. refl) i;
    get_machine_name = plain_sent Rpc.get_machine_name_method d.get_machine_name (λ _. refl) i;
    get_ssh_hostname = text_sent Rpc.get_ssh_hostname_method d.get_ssh_hostname (λ _. refl) i;
    get_ssh_key_path = plain_sent Rpc.get_ssh_key_path_method d.get_ssh_key_path (λ _. refl) i;
    get_ssh_port =
        value_sent Rpc.get_ssh_port_method Rpc.no_args d.get_ssh_port Rpc.number_reply decode_number
          (λ _. refl) (λ _. refl) i;
    get_ssh_username = plain_sent Rpc.get_ssh_username_method d.get_ssh_username (λ _. refl) i;
    get_url = text_sent Rpc.get_url_method d.get_url (λ _. refl) i;
    get_state = state_sent i;
    kill = done_sent Rpc.kill_method Rpc.no_args d.kill (λ _. refl) i;
    pre_create_check =
        done_sent Rpc.pre_create_check_method Rpc.no_args d.pre_create_check (λ _. refl) i;
    remove = done_sent Rpc.remove_method Rpc.no_args d.remove (λ _. refl) i;
    restart = done_sent Rpc.restart_method Rpc.no_args d.restart (λ _. refl) i;
    set_config_from_flags = λ flags.
        done_sent Rpc.set_config_from_flags_method (Rpc.options_arg flags)
          (d.set_config_from_flags flags) (λ _. refl) i;
    start = done_sent Rpc.start_method Rpc.no_args d.start (λ _. refl) i;
    stop = done_sent Rpc.stop_method Rpc.no_args d.stop (λ _. refl) i;
  }
    where
      d : Driver W
      d = server.actual_driver
