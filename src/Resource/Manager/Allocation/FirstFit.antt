-- ===== src/Resource/Manager/Allocation/FirstFit.antt =====
-- `reserveListeners` against a reference: the host ports of the pool that can be bound, in order.
use mathlib.Core.List.{append-nil, append_assoc}
use llama_stack.Base.{
  ℕ, zero, suc, ◌-◌, ◌≤◌, ◌<◌, ◌≡◌, refl, sym, ap, ◌∙◌, fun_ext, Bool, true, false, not, ◌&&◌,
  Option, none, some, List, [], ◌∷◌, ◌++◌, ok, err, Failure, exhausted, inl, inr, arith, length,
  drop, Bool-cases,
}
use llama_stack.Base.Int.{ℤ}
use llama_stack.Resource.Types.{Port}
use llama_stack.Resource.Store.{LeaseRecord}
use llama_stack.Resource.Manager.{
  Manager, put, listen, close_listener, close_listeners, address_in_use,
}
use llama_stack.Resource.Manager.Allocation.Hosts.{
  available, assign, assign-nil, drop-nil, has_host, bind_all, bind_all_lem, has_host-available,
  unbind_all, unbind_all_lem, drop_all, drop_some, put_ne, can_bind,
}
use llama_stack.Resource.Manager.Allocation.{
  is_used, Reservation, reserve_loop, settle, reserve_listeners,
}

module _ {DB : Type 0} where
  abbrev pub bound : List Port → Manager DB → Manager DB
  bound ps m = record m { listening = bind_all ps m.listening }

  listen_busy :
      (free : ℕ → Bool) (q : ℕ) (m : Manager DB)
      → (free q && not (m.listening q)) ≡ false
      → listen free q m ≡ (err address_in_use, m)
  unfolding listen
  listen_busy free q m h = rw h refl

  listen_free :
      (free : ℕ → Bool) (q : ℕ) (m : Manager DB)
      → (free q && not (m.listening q)) ≡ true
      → listen free q m ≡ (ok tt, record m { listening = put q true m.listening })
  unfolding listen
  listen_free free q m h = rw h refl

  close_listeners_lem :
      (ps : List Port) (m : Manager DB)
      → close_listeners ps m ≡ record m { listening = unbind_all ps m.listening }
  unfolding close_listeners close_listener
  close_listeners_lem [] m = refl
  close_listeners_lem (p ∷ ps) m =
      close_listeners_lem ps (record m { listening = put p.host_port false m.listening })

  -- Closing what was bound gives back the ports as they were, if none of them was bound before.
  pub close_listeners-bound :
      (ps : List Port) (m : Manager DB)
      → ((q : ℕ) → has_host q ps ≡ true → m.listening q ≡ false)
      → close_listeners ps (bound ps m) ≡ m
  close_listeners-bound ps m fresh = rw close_listeners_lem (
      ap (λ f. record m { listening = f })
        (fun_ext (λ q. ground (
          arith,
          unbind_all_lem ps (bind_all ps m.listening) q,
          bind_all_lem ps m.listening q,
          fresh q,
        ))))

  -- One turn of the loop, in its three cases.
  module _ (free : ℕ → Bool) (active : List LeaseRecord) (n h : ℕ) (ports : List Port) (t : ℤ)
      (ts : List ℤ) (e : Option Failure) (m : Manager DB) where
    reserve_loop_used :
        is_used active h ≡ true
        → reserve_loop free active (suc n) h ports (t ∷ ts) e m
          ≡ reserve_loop free active n (suc h) ports (t ∷ ts) e m
    unfolding reserve_loop
    reserve_loop_used used = rw (used, reserve_loop) refl

    reserve_loop_busy :
        is_used active h ≡ false
        → (free h && not (m.listening h)) ≡ false
        → reserve_loop free active (suc n) h ports (t ∷ ts) e m
          ≡ reserve_loop free active n (suc h) ports (t ∷ ts) (some address_in_use) m
    unfolding reserve_loop
    reserve_loop_busy unused busy =
        let answer = listen_busy free h m busy in rw (unused, answer, reserve_loop) (rw answer refl)

    reserve_loop_bind :
        is_used active h ≡ false
        → (free h && not (m.listening h)) ≡ true
        → reserve_loop free active (suc n) h ports (t ∷ ts) e m
          ≡ reserve_loop free active n
              (suc h)
              (ports ++ record { host_port = h; target_port = t } ∷ [])
              ts
              none
              (record m { listening = put h true m.listening })
    unfolding reserve_loop
    reserve_loop_bind unused can =
        let answer = listen_free free h m can in rw (unused, answer, reserve_loop) (rw answer refl)

  module _ (free : ℕ → Bool) (active : List LeaseRecord) (b : ℕ → Bool) where
    abbrev LoopLem : (n h : ℕ) → List Port → List ℤ → Option Failure → Manager DB → Type 0
    LoopLem n h ports ts e m =
        ((reserve_loop free active n h ports ts e m).0.ports ≡ ports ++ assign (available b n h) ts)
        × ((reserve_loop free active n h ports ts e m).0.waiting
            ≡ drop (length (available b n h)) ts)
        × ((reserve_loop free active n h ports ts e m).1 ≡ bound (assign (available b n h) ts) m)

    abbrev Agrees : ℕ → Manager DB → Type 0
    Agrees h m = (q : ℕ) → h ≤ q → b q ≡ can_bind free active m.listening q

    reserve_loop_lem :
        (n h : ℕ) (ports : List Port) (ts : List ℤ) (e : Option Failure) (m : Manager DB)
        → Agrees h m
        → LoopLem n h ports ts e m
    unfolding reserve_loop
    reserve_loop_lem zero h ports ts e m agree = (sym (append-nil ports), refl, refl)
    reserve_loop_lem (suc n) h ports [] e m agree =
        rw (assign-nil (available b (suc n) h), drop-nil {A = ℤ} (length (available b (suc n) h)))
          (sym (append-nil ports), refl, refl)
    reserve_loop_lem (suc n) h ports (t ∷ ts) e m agree = elim (Bool-cases (is_used active h)) [
      | inl used ↦
          let skipped : b h ≡ false = rw (agree h (omega arith), used) refl in
          rw (reserve_loop_used free active n h ports t ts e m used, skipped)
            (reserve_loop_lem n (suc h) ports (t ∷ ts) e m (λ q l. agree q (omega arith)))
      | inr unused ↦ elim (Bool-cases (free h && not (m.listening h))) [
        | inl can ↦
            let m' : Manager DB = record m { listening = put h true m.listening } in
            let chosen : b h ≡ true = rw (agree h (omega arith), unused, can) refl in
            let later : (q : ℕ) → suc h ≤ q → b q ≡ can_bind free active m'.listening q =
              λ q l. rw (agree q (omega arith), put_ne h true m.listening q (omega arith)) refl in
            let rest =
              reserve_loop_lem n (suc h) (ports ++ record { host_port = h; target_port = t } ∷ [])
                ts none m' later in
            rw (reserve_loop_bind free active n h ports t ts e m unused can, chosen)
              (rest.0 ∙ append_assoc ports _ _, rest.1, rest.2)
        | inr cannot ↦
            let skipped : b h ≡ false = rw (agree h (omega arith), unused, cannot) refl in
            rw (reserve_loop_busy free active n h ports t ts e m unused cannot, skipped)
              (reserve_loop_lem n (suc h) ports (t ∷ ts) (some address_in_use) m
                (λ q l. agree q (omega arith)))
      ]
    ]

  module _ (free : ℕ → Bool) (active : List LeaseRecord) where
    -- The variable `err` is nil once every target port has a host port.
    reserve_loop-failure :
        (n h : ℕ) (ports : List Port) (ts : List ℤ) (e : Option Failure) (m : Manager DB)
        → (ts ≡ [] → e ≡ none)
        → (reserve_loop free active n h ports ts e m).0.waiting ≡ []
        → (reserve_loop free active n h ports ts e m).0.failure ≡ none
    unfolding reserve_loop
    reserve_loop-failure zero h ports ts e m start over = start over
    reserve_loop-failure (suc n) h ports [] e m start over = start refl
    reserve_loop-failure (suc n) h ports (t ∷ ts) e m start over =
        elim (Bool-cases (is_used active h)) [
          | inl used ↦
              let turn = reserve_loop_used free active n h ports t ts e m used in
              rw turn (
                reserve_loop-failure n (suc h) ports (t ∷ ts) e m (λ c. absurd (cc c))
                  (rw turn at over))
          | inr unused ↦ elim (Bool-cases (free h && not (m.listening h))) [
            | inl can ↦
                let turn = reserve_loop_bind free active n h ports t ts e m unused can in
                rw turn (reserve_loop-failure n (suc h) _ ts none _ (λ c. refl) (rw turn at over))
            | inr cannot ↦
                let turn = reserve_loop_busy free active n h ports t ts e m unused cannot in
                rw turn (
                  reserve_loop-failure n (suc h) ports (t ∷ ts) (some address_in_use) m
                    (λ c. absurd (cc c)) (rw turn at over))
          ]
        ]

  settle_ok :
      (x : Reservation × Manager DB)
      → x.0.waiting ≡ []
      → x.0.failure ≡ none
      → settle x ≡ (ok x.0.ports, x.1)
  settle_ok x w f = rw (w, f) refl

  settle_exhausted :
      (x : Reservation × Manager DB) {t : ℤ} {ts : List ℤ}
      → x.0.waiting ≡ t ∷ ts
      → settle x ≡ (err exhausted, close_listeners x.0.ports x.1)
  settle_exhausted x w = rw w refl

  -- The ports that a reservation can have, in the order of the pool.
  abbrev pub pool : (ℕ → Bool) → List LeaseRecord → Manager DB → List ℕ
  pool free active m =
      available (can_bind free active m.listening) (suc m.config.port_end - m.config.port_start)
        m.config.port_start

  -- What the pool gives out was not bound before.
  pub pool-unbound :
      (free : ℕ → Bool) (target_ports : List ℤ) (active : List LeaseRecord) (m : Manager DB) (q : ℕ)
      → has_host q (assign (pool free active m) target_ports) ≡ true
      → m.listening q ≡ false
  pool-unbound free target_ports active m q e = ground (
    arith,
    has_host-available (can_bind free active m.listening)
        (suc m.config.port_end - m.config.port_start) m.config.port_start target_ports q e,
  )

  -- Both outcomes of a reservation.
  pub reserve_listeners-outcomes :
      (free : ℕ → Bool) (target_ports : List ℤ) (active : List LeaseRecord) (m : Manager DB)
      → (length target_ports ≤ length (pool free active m)
          → reserve_listeners free target_ports active m ≡ (
            ok (assign (pool free active m) target_ports),
            bound (assign (pool free active m) target_ports) m,
          ))
        × (length (pool free active m) < length target_ports
            → reserve_listeners free target_ports active m ≡ (err exhausted, m))
  unfolding reserve_listeners
  reserve_listeners-outcomes free target_ports active m = (
    λ enough.
        settle_ok x (loop.1 ∙ drop_all (length hosts) target_ports enough) (
          reserve_loop-failure free active n start [] target_ports none m (λ c. refl)
            (loop.1 ∙ drop_all (length hosts) target_ports enough))
        ∙ (λ i. (ok (loop.0 i), loop.2 i)),
    λ short.
        let (t, rest, e) = drop_some (length hosts) target_ports short in
        settle_exhausted x (loop.1 ∙ e)
        ∙ (λ i. (err exhausted, close_listeners (loop.0 i) (loop.2 i)))
        ∙ ap (λ s. (err exhausted, s))
            (close_listeners-bound (assign hosts target_ports) m
              (pool-unbound free target_ports active m)),
  )
    where
      start : ℕ
      start = m.config.port_start

      n : ℕ
      n = suc m.config.port_end - start

      hosts : List ℕ
      hosts = pool free active m

      x : Reservation × Manager DB
      x = reserve_loop free active n start [] target_ports none m

      loop : LoopLem free active (can_bind free active m.listening) n start [] target_ports none m
      loop =
          reserve_loop_lem free active (can_bind free active m.listening) n start [] target_ports
            none m (λ q l. refl)
