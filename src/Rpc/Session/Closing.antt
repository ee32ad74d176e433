-- ===== src/Rpc/Session/Closing.antt =====
-- When closing the drivers ends.
use p2box.Base.{
  ℕ, zero, suc, List, [], ◌∷◌, ◌++◌, true, String, ◌≡◌, ◌≢◌, refl, sym, subst, ◌∙◌, ◌↔◌, inl, inr,
}
use p2box.Go.{Error, ok, err, Result}
use p2box.Rpc
use p2box.Rpc.Plugin.{Plugin}
use p2box.Rpc.Session.Opening.{
  IsOpen, NeverCloses, unheard, stuck, unplugged, Settled, new_rpc_client_driver-Opened,
}
use p2box.Rpc.Session.{
  RpcClientDriver, Factory, Plugins, Closed, done, blocked, panicked, close_driver, close_all,
  factory_close, new_rpc_client_driver, beat, Heartbeat, not_started, selecting, sending, returned,
  Request, opens, beats, step, run, next_close, list_emptied, beaten, wake, beat_at, no_drivers,
}

module _ {W : Type 0} where
  -- The drivers on a list are all open, or are all settled.
  abbrev pub AllOpen : List (RpcClientDriver W) → Type 0
  AllOpen [] = Unit {0}
  AllOpen (c ∷ cs) = IsOpen c × AllOpen cs

  abbrev pub AllSettled : List (RpcClientDriver W) → Type 0
  AllSettled [] = Unit {0}
  AllSettled (c ∷ cs) = Settled c × AllSettled cs

-- The loop goes on only where a driver was closed.
first_done :
    {W : Type 0} (rest : W → Closed × W) (r : Closed × W)
    → (next_close rest r).0 ≡ done
    → r.0 ≡ done
first_done rest (done, w) h = refl
first_done rest (blocked, w) h = h
first_done rest (panicked, w) h = h

rest_done :
    {W : Type 0} (rest : W → Closed × W) (r : Closed × W)
    → (next_close rest r).0 ≡ done
    → (rest r.1).0 ≡ done
rest_done rest (done, w) h = h
rest_done rest (blocked, w) h = cc
rest_done rest (panicked, w) h = cc

module _ {W : Type 0} (plugins : Plugins W) where
  -- The plugins take the signal to stop.
  abbrev pub Stop : Type 0
  Stop = (p : Plugin) (w : W) → (plugins.close p w).0 ≡ true

  open_closes :
      Stop → (c : RpcClientDriver W) (w : W) → IsOpen c → (close_driver plugins c w).0 ≡ done
  unfolding close_driver
  open_closes stops c w (h, p, e, n) = rw (h, e, stops p) refl

  never_closes :
      (c : RpcClientDriver W) (w : W) → NeverCloses c → (close_driver plugins c w).0 ≢ done
  unfolding close_driver
  never_closes c w (unheard h) = rw h (λ e. cc)
  never_closes c w (stuck h) = rw h (λ e. cc)
  never_closes c w (unplugged h n) = rw (h, n) (λ e. cc)

  -- The loop over a list of settled drivers ends exactly when all of them are open.
  close_all-open :
      Stop
      → (cs : List (RpcClientDriver W)) (w : W) → AllOpen cs
      → (close_all plugins cs w).0 ≡ done
  unfolding close_all
  close_all-open stops [] w o = refl
  close_all-open stops (c ∷ cs) w (o, os) =
      let (r, w') = close_driver plugins c w in
      rw (open_closes stops c w o) (close_all-open stops cs w' os)

  close_all-AllOpen :
      (cs : List (RpcClientDriver W)) (w : W)
      → AllSettled cs
      → (close_all plugins cs w).0 ≡ done
      → AllOpen cs
  unfolding close_all
  close_all-AllOpen [] w s h = tt
  close_all-AllOpen (c ∷ cs) w (inr never, s) h =
      absurd (never_closes c w never (first_done _ (close_driver plugins c w) h))
  close_all-AllOpen (c ∷ cs) w (inl o, s) h =
      (o, close_all-AllOpen cs _ s (rest_done _ (close_driver plugins c w) h))

  -- After a driver that never closes the loop does not end, whatever stands before it.
  close_all-never :
      (cs : List (RpcClientDriver W)) (c : RpcClientDriver W) (w : W)
      → NeverCloses c
      → (close_all plugins (cs ++ (c ∷ [])) w).0 ≢ done
  unfolding close_all
  close_all-never [] c w never h =
      never_closes c w never (first_done _ (close_driver plugins c w) h)
  close_all-never (d ∷ cs) c w never h =
      close_all-never cs c _ never (rest_done _ (close_driver plugins d w) h)

list_emptied_done : {W : Type 0} (r : Closed × W) (f : Factory W) → (list_emptied r f).0 ≡ r.0
list_emptied_done (done, w) f = refl
list_emptied_done (blocked, w) f = refl
list_emptied_done (panicked, w) f = refl

module _ {W : Type 0} where
  beaten-Settled : (r : Result Rpc.Reply) (c : RpcClientDriver W) → Settled c → Settled (beaten r c)
  beaten-Settled (ok reply) c s = s
  beaten-Settled (err e) c s = inr (stuck refl)

  wake-Settled :
      (h : Heartbeat) (c : RpcClientDriver W) (w : W) → Settled c → Settled (wake h c w).0
  unfolding beat
  wake-Settled selecting c w s = beaten-Settled _ c s
  wake-Settled not_started c w s = s
  wake-Settled sending c w s = s
  wake-Settled returned c w s = s

  beat_at-AllSettled :
      (n : ℕ) (cs : List (RpcClientDriver W)) (w : W)
      → AllSettled cs
      → AllSettled (beat_at n cs w).0
  unfolding beat_at
  beat_at-AllSettled zero [] w s = s
  beat_at-AllSettled (suc n) [] w s = s
  beat_at-AllSettled zero (c ∷ cs) w (s, ss) = (wake-Settled c.heartbeat c w s, ss)
  beat_at-AllSettled (suc n) (c ∷ cs) w (s, ss) = (s, beat_at-AllSettled n cs w ss)

  append-AllSettled :
      (cs : List (RpcClientDriver W)) (c : RpcClientDriver W)
      → AllSettled cs
      → Settled c
      → AllSettled (cs ++ (c ∷ []))
  append-AllSettled [] c ss s = (s, tt)
  append-AllSettled (d ∷ cs) c (t, ss) s = (t, append-AllSettled cs c ss s)

module _ {W : Type 0} (plugins : Plugins W) where
  step-AllSettled :
      (r : Request) (f : Factory W) (w : W)
      → AllSettled f.opened_drivers
      → AllSettled (step plugins r (f, w)).0.opened_drivers
  unfolding step
  step-AllSettled (beats n) f w s = beat_at-AllSettled n f.opened_drivers w s
  step-AllSettled (opens driver_name raw_driver) f w s =
      elim (new_rpc_client_driver-Opened plugins driver_name raw_driver f w) [
        | inl (c, e, l, o) ↦ rw l (append-AllSettled f.opened_drivers c s (inl o))
        | inr (e, h, inl same) ↦ rw same s
        | inr (e, h, inr (c, l, never)) ↦ rw l (append-AllSettled f.opened_drivers c s (inr never))
      ]

  run-AllSettled :
      (rs : List Request) (f : Factory W) (w : W)
      → AllSettled f.opened_drivers
      → AllSettled (run plugins rs (f, w)).0.opened_drivers
  unfolding run
  run-AllSettled [] f w s = s
  run-AllSettled (r ∷ rs) f w s =
      let (f', w') = step plugins r (f, w) in run-AllSettled rs f' w' (step-AllSettled r f w s)

  -- After any sequence of openings and heartbeats, closing the factory returns exactly when all the
  -- drivers on its list are still open, if the plugins take the signal to stop.
  pub run-close_iff :
      Stop plugins
      → (rs : List Request) (w : W)
      → (let (f, w') = run plugins rs (no_drivers, w) in
          ((factory_close plugins f w').0 ≡ done) ↔ AllOpen f.opened_drivers)
  unfolding factory_close
  run-close_iff stops rs w =
      let (f, w') = run plugins rs (no_drivers, w) in
      let settled = run-AllSettled rs no_drivers w tt in
      let e = list_emptied_done (close_all plugins f.opened_drivers w') f in
      (
        λ h. close_all-AllOpen plugins f.opened_drivers w' settled (sym e ∙ h),
        λ o. e ∙ close_all-open plugins stops f.opened_drivers w' o,
      )

  -- Where a driver is listed though its opening failed, closing the factory never returns.
  pub failed_open_never_closes :
      (driver_name raw_driver : String) (f : Factory W) (w : W)
      → (let (r, (f', w')) = new_rpc_client_driver plugins driver_name raw_driver (f, w) in
          (e : Error) → r ≡ err e → f' ≢ f → (factory_close plugins f' w').0 ≢ done)
  unfolding factory_close
  failed_open_never_closes driver_name raw_driver f w e h new k =
      let (f', w') = (new_rpc_client_driver plugins driver_name raw_driver (f, w)).1 in
      elim (new_rpc_client_driver-Opened plugins driver_name raw_driver f w) [
        | inl (c, e', l, o) ↦ cc
        | inr (e', h', inl same) ↦ absurd (new same)
        | inr (e', h', inr (c, l, never)) ↦ absurd (
            close_all-never plugins f.opened_drivers c w' never (
              subst (λ cs. (close_all plugins cs w').0 ≡ done) l
                (sym (list_emptied_done (close_all plugins f'.opened_drivers w') f') ∙ k)))
      ]
