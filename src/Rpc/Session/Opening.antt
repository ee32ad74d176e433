-- ===== src/Rpc/Session/Opening.antt =====
-- What a call of `NewRPCClientDriver` leaves behind, in each of its outcomes.
use p2box.Rpc.Client.{set_config_raw, switch_to_v0}
use p2box.Base.{ℤ, [], ◌∷◌, ◌++◌, none, some, String, ◌≡◌, refl, ◌⊎◌, inl, inr, Bool-cases}
use p2box.Go.{Error, Result, ok, err}
use p2box.Go.Laws.{Result-cases}
use p2box.Rpc
use p2box.Rpc.Plugin.{Plugin}
use p2box.Rpc.Session.{
  RpcClientDriver, Factory, Plugins, not_started, selecting, sending, get_version, negotiate,
  same_version, configure, connect, fresh_driver, dialled, opened, new_rpc_client_driver,
}

module _ {W : Type 0} where
  -- The heartbeat loop listens, and the plugin can be told to stop.
  abbrev pub IsOpen : RpcClientDriver W → Type 0
  IsOpen c =
      (c.heartbeat ≡ selecting)
      × (p : Plugin) × (c.plugin ≡ some p)
      × (p.machine_name ≡ c.client.machine_name)

  -- No goroutine receives on the channel of the loop, or no plugin is there.
  pub data NeverCloses (c : RpcClientDriver W) : Type 0 where
    unheard : c.heartbeat ≡ not_started → NeverCloses c
    stuck : c.heartbeat ≡ sending → NeverCloses c
    unplugged : c.heartbeat ≡ selecting → c.plugin ≡ none → NeverCloses c

  -- The driver after its first calls: open, or listed though its opening failed.
  abbrev pub Connected : Result (Unit {0}) → RpcClientDriver W → Type 0
  Connected r c = ((r ≡ ok tt) × IsOpen c) ⊎ ((e : Error) × (r ≡ err e) × NeverCloses c)

  -- The service answers by the name that the client keeps, the new one or else the old one.
  abbrev pub Negotiated : RpcClientDriver W → W → Result ℤ → RpcClientDriver W → Type 0
  Negotiated c w r c' =
      ((r ≡ (get_version c.client w).0) × (c' ≡ c))
      ⊎ ((e : Error) × ((get_version c.client w).0 ≡ err e)
          × (c' ≡ record c { client = switch_to_v0 c.client })
          × (r ≡ (get_version (switch_to_v0 c.client) (get_version c.client w).1).0))

  pub negotiate-Negotiated :
      (c : RpcClientDriver W) (w : W) → Negotiated c w (negotiate (c, w)).0 (negotiate (c, w)).1.0
  negotiate-Negotiated c w = elim (Result-cases (get_version c.client w).0) [
    | inl (v, e) ↦ rw e (inl (refl, refl))
    | inr (error, e) ↦ rw e (inr (error, refl, refl, refl))
  ]

  negotiate_keeps :
      (c : RpcClientDriver W) (w : W)
      → c.heartbeat ≡ not_started
      → (negotiate (c, w)).1.0.heartbeat ≡ not_started
  negotiate_keeps c w h = elim (Result-cases (get_version c.client w).0) [
    | inl (v, e) ↦ rw e h
    | inr (error, e) ↦ rw e h
  ]

  configure-Connected :
      (p : Plugin) (raw_driver : String) (c : RpcClientDriver W) (w : W)
      → c.plugin ≡ none
      → Connected (configure p raw_driver (c, w)).0 (configure p raw_driver (c, w)).1.0
  configure-Connected p raw_driver c w h =
      elim (Result-cases (set_config_raw c.client raw_driver w).0) [
        | inl (u, e) ↦ rw e (inl (refl, (refl, _, refl, refl)))
        | inr (error, e) ↦ rw e (inr (error, refl, unplugged refl h))
      ]

  negotiate_unplugged :
      (c : RpcClientDriver W) (w : W) → c.plugin ≡ none → (negotiate (c, w)).1.0.plugin ≡ none
  negotiate_unplugged c w h = elim (Result-cases (get_version c.client w).0) [
    | inl (v, e) ↦ rw e h
    | inr (error, e) ↦ rw e h
  ]

  connect-Connected :
      (p : Plugin) (raw_driver : String) (c : RpcClientDriver W) (w : W)
      → c.heartbeat ≡ not_started
      → c.plugin ≡ none
      → Connected (connect p raw_driver (c, w)).0 (connect p raw_driver (c, w)).1.0
  unfolding connect
  connect-Connected p raw_driver c w h n =
      let (r, (c', w')) = negotiate (c, w) in
      elim (Result-cases (negotiate (c, w)).0) [
        | inl (v, e) ↦ elim (Bool-cases (same_version v)) [
          | inl s ↦
              rw (e, s)
                (configure-Connected p raw_driver (record c' { heartbeat = selecting }) w'
                  (negotiate_unplugged c w n))
          | inr s ↦ rw (e, s) (inr (_, refl, unheard (negotiate_keeps c w h)))
        ]
        | inr (error, e) ↦ rw e (inr (error, refl, unheard (negotiate_keeps c w h)))
      ]

-- A driver on the list of the factory.
abbrev pub Settled : {W : Type 0} → RpcClientDriver W → Type 0
Settled c = IsOpen c ⊎ NeverCloses c

-- What the call returns, and the drivers that it adds to those of the factory.
abbrev pub Opened : {W : Type 0} → Factory W → Result (RpcClientDriver W) → Factory W → Type 0
Opened {W} f r f' =
    ((c : RpcClientDriver W) × (r ≡ ok c)
      × (f'.opened_drivers ≡ f.opened_drivers ++ (c ∷ []))
      × IsOpen c)
    ⊎ ((e : Error) × (r ≡ err e)
        × ((f' ≡ f)
            ⊎ ((c : RpcClientDriver W) × (f'.opened_drivers ≡ f.opened_drivers ++ (c ∷ []))
                × NeverCloses c)))

module _ {W : Type 0} (plugins : Plugins W) where
  opened-Opened :
      (raw_driver : String) (r : Result (Plugin × Rpc.RpcClient W)) (f : Factory W) (w : W)
      → Opened f (opened plugins raw_driver r (f, w)).0 (opened plugins raw_driver r (f, w)).1.0
  opened-Opened raw_driver (err e) f w = inr (e, refl, inl refl)
  opened-Opened raw_driver (ok (p, rpc_client)) f w =
      elim (connect-Connected p raw_driver (fresh_driver rpc_client) w refl refl) [
        | inl (e, is_open) ↦ rw e (inl (_, refl, refl, is_open))
        | inr (error, e, never) ↦ rw e (inr (error, refl, inr (_, refl, never)))
      ]

  -- A call either returns a driver that is open and listed; or it fails, and then nothing was
  -- listed, or a driver was listed that can never be closed.
  pub new_rpc_client_driver-Opened :
      (driver_name raw_driver : String) (f : Factory W) (w : W)
      → Opened f
          (new_rpc_client_driver plugins driver_name raw_driver (f, w)).0
          (new_rpc_client_driver plugins driver_name raw_driver (f, w)).1.0
  unfolding new_rpc_client_driver
  new_rpc_client_driver-Opened driver_name raw_driver f w =
      let (r, w') = dialled plugins driver_name w in opened-Opened raw_driver r f w'
