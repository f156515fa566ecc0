-- ===== src/Router/History/Sound.antt =====
-- What holds of the router between any two steps of its loop, and that every step keeps it.
use bartimaeus_app.Base.{
  ℕ, ◌^◌, ◌<◌, ◌≡◌, refl, ◌≤◌, Bool, true, false, inl, inr, Option, none, some, arith,
  if◌then◌else◌, length, ltb, ◌==◌, ℕ_discrete, Option-cases,
}
use bartimaeus_app.Base.Map.{Map, IsFunctional, HoldsOf, insert-IsFunctional, insert-HoldsOf}
use bartimaeus_app.Router.Acl.{Action, allow, deny, evaluate_acl, acl_rules}
use bartimaeus_app.Router.Memory.{Memory, buffer_size, load32, store32}
use bartimaeus_app.Router.Transport.{update_ip_checksum, update_transport_checksum}
use bartimaeus_app.Router.Header.{
  AreBytes, load32-lt, load16_be-lt, store32-AreBytes, update_ip_checksum-AreBytes,
}
use bartimaeus_app.Router.Pipeline.{
  NatSession, Router, Frame, Sent, Outcome, fault, dropped, forwarded, received, receive,
  five_tuple, learn_gateway, learn_proxy, has_ports, register_session, router_external_ip, proxy_ip,
  min_header, forward_inbound, screen_inbound, inbound, finish_outbound, restore_client,
  screen_outbound, outbound,
}
use bartimaeus_app.Router.Filter.{IsAdmitted, five_tuple-allowed, learn_gateway-buffer}
use bartimaeus_app.Router.Inbound.{
  translated, translated-AreBytes, forward_inbound-some, forward_inbound-none,
}
use bartimaeus_app.Router.History.Buffers.{
  IsFrame, take-IsByte, overwrite-AreBytes, update_transport-HaveBytes,
}
use bartimaeus_app.Router.History.{client_of}

module _ (P : NatSession → Type 0) where
  -- A session stands under its own port, and both its fields fit their types.
  abbrev pub Owned : ℕ → NatSession → Type 0
  Owned port it =
      (port ≡ it.client_port) × (it.client_port < 2 ^ 16) × (it.client_ip < 2 ^ 32) × P it

  -- The buffer holds bytes, each port has one session, and each session has the property.
  pub record IsSound (r : Router) : Type 0 where
    pub buffer : AreBytes r.buffer
    pub functional : IsFunctional ℕ_discrete r.session_table
    pub owned : HoldsOf ℕ_discrete Owned r.session_table

  pub data Keeps : Outcome → Type 0 where
    faulted : Keeps fault
    skipped : (r : Router) → IsSound r → Keeps (dropped r)
    sent : (r : Router) (s : Sent) → IsSound r → Keeps (forwarded r s)

  if-Keeps :
      (b : Bool) (x y : Outcome) → Keeps x → (b ≡ false → Keeps y) → Keeps (if b then x else y)
  if-Keeps true x y hx hy = hx
  if-Keeps false x y hx hy = hy refl

  with_buffer :
      (r : Router) (m : Memory) → IsSound r → AreBytes m → IsSound (record r { buffer = m })
  with_buffer r m h b = record { buffer = b; functional = h.functional; owned = h.owned }

  pub receive-IsSound :
      (r : Router) (f : Frame) → IsFrame (some f) → IsSound r → IsSound (receive r f)
  receive-IsSound r f b h =
      with_buffer r _ h
        (overwrite-AreBytes r.buffer 0 (received f) h.buffer (take-IsByte buffer_size f.payload b))

  learn_gateway-IsSound : (r : Router) (f : Frame) → IsSound r → IsSound (learn_gateway r f)
  learn_gateway-IsSound r f h = ground arith

  learn_proxy-IsSound : (r : Router) (f : Frame) → IsSound r → IsSound (learn_proxy r f)
  learn_proxy-IsSound r f h = ground arith

  if-Owned :
      (b : Bool) (x y : Map ℕ NatSession)
      → IsFunctional ℕ_discrete x × HoldsOf ℕ_discrete Owned x
      → IsFunctional ℕ_discrete y × HoldsOf ℕ_discrete Owned y
      → IsFunctional ℕ_discrete (if b then x else y) × HoldsOf ℕ_discrete Owned (if b then x else y)
  if-Owned true x y hx hy = hx
  if-Owned false x y hx hy = hy

  register-Owned :
      (r : Router)
      → IsSound r
      → P (client_of r.buffer)
      → IsFunctional ℕ_discrete
          (register_session (translated r.buffer) (load32 r.buffer 12) r.session_table)
        × HoldsOf ℕ_discrete Owned
            (register_session (translated r.buffer) (load32 r.buffer 12) r.session_table)
  register-Owned r h p =
      let client = client_of r.buffer in
      unfold register_session in
      if-Owned _ _ _
        (
          insert-IsFunctional ℕ_discrete client.client_port client r.session_table h.functional,
          insert-HoldsOf ℕ_discrete Owned client.client_port client r.session_table
              (
                refl,
                load16_be-lt _ _ (translated-AreBytes r.buffer h.buffer),
                load32-lt r.buffer 12 h.buffer,
                p,
              )
              h.owned,
        )
        (h.functional, h.owned)

  forward_inbound-Keeps :
      (r : Router) (n : ℕ) → IsSound r → P (client_of r.buffer) → Keeps (forward_inbound r n)
  forward_inbound-Keeps r n h p =
      elim (Option-cases (update_transport_checksum (translated r.buffer))) [
        | inl e ↦ rw (forward_inbound-none r n e) faulted
        | inr (m, e) ↦
            let bytes_ok =
              update_transport-HaveBytes (translated r.buffer)
                (translated-AreBytes r.buffer h.buffer) in
            let (functional, owned) = register-Owned r h p in
            rw (forward_inbound-some r n m e) (
              sent _ _
                (record { buffer = rw e at bytes_ok; functional = functional; owned = owned }))
      ]

  action-Keeps :
      (a : Action) (x y : Outcome)
      → Keeps x
      → (a ≡ allow → Keeps y)
      → Keeps (elim a [ deny ↦ x | allow ↦ y ])
  action-Keeps deny x y hx hy = hx
  action-Keeps allow x y hx hy = hy refl

  screen_inbound-Keeps :
      (r : Router) (n : ℕ)
      → IsSound r
      → (IsAdmitted r.buffer → P (client_of r.buffer))
      → Keeps (screen_inbound r n)
  unfolding screen_inbound
  screen_inbound-Keeps r n h p =
      if-Keeps (load32 r.buffer 12 == router_external_ip) _ _ (skipped r h) (λ other.
        action-Keeps (evaluate_acl acl_rules (five_tuple r.buffer)).action _ _ (skipped r h)
          (λ passes.
            let (tcp, port) = five_tuple-allowed r.buffer passes in
            forward_inbound-Keeps r n h
              (p (record { protocol = tcp; dst_port = port; source = ground arith }))))

  -- What the filter asks of a frame from outside.
  abbrev pub LetsIn : Router → Option Frame → Type 0
  LetsIn r none = Unit
  LetsIn r (some f) =
      min_header ≤ length (received f)
      → f.is_outgoing ≡ false
      → IsAdmitted (receive r f).buffer
      → P (client_of (receive r f).buffer)

  pub inbound-Keeps :
      (r : Router) (frame : Option Frame)
      → IsFrame frame
      → LetsIn r frame
      → IsSound r
      → Keeps (inbound r frame)
  unfolding inbound
  inbound-Keeps r none b p h = skipped r h
  inbound-Keeps r (some f) b p h =
      let got = receive-IsSound r f b h in
      let same = learn_gateway-buffer (receive r f) f in
      if-Keeps (ltb (length (received f)) min_header) _ _ (skipped _ got) (λ whole.
        if-Keeps f.is_outgoing _ _ (skipped _ got) (λ fresh.
          screen_inbound-Keeps _ _ (learn_gateway-IsSound (receive r f) f got)
            (rw same (p (ground arith) fresh))))

  finish_outbound-Keeps : (r : Router) (n : ℕ) → IsSound r → Keeps (finish_outbound r n)
  finish_outbound-Keeps r n h =
      let m = update_ip_checksum r.buffer in
      let bytes_ok = update_transport-HaveBytes m (update_ip_checksum-AreBytes r.buffer h.buffer) in
      elim (Option-cases (update_transport_checksum m)) [
        | inl e ↦ unfold finish_outbound in rw e faulted
        | inr (m', e) ↦
            unfold finish_outbound in rw e (sent _ _ (with_buffer r m' h (rw e at bytes_ok)))
      ]

  found-Keeps :
      (r : Router) (n : ℕ) (it : Option NatSession)
      → IsSound r
      → Keeps (elim it [
        | none ↦ dropped r
        | some it ↦ finish_outbound (record r { buffer = store32 r.buffer 16 it.client_ip }) n
      ])
  found-Keeps r n none h = skipped r h
  found-Keeps r n (some it) h =
      finish_outbound-Keeps _ n
        (with_buffer r _ h (store32-AreBytes r.buffer 16 it.client_ip h.buffer))

  restore_client-Keeps : (r : Router) (n : ℕ) → IsSound r → Keeps (restore_client r n)
  unfolding restore_client
  restore_client-Keeps r n h =
      if-Keeps (has_ports r.buffer) _ _ (found-Keeps r n _ h) (λ _. finish_outbound-Keeps r n h)

  screen_outbound-Keeps : (r : Router) (n : ℕ) → IsSound r → Keeps (screen_outbound r n)
  unfolding screen_outbound
  screen_outbound-Keeps r n h =
      if-Keeps (load32 r.buffer 12 == proxy_ip) _ _
        (restore_client-Keeps _ n
          (with_buffer r _ h (store32-AreBytes r.buffer 12 router_external_ip h.buffer)))
        (λ _. skipped r h)

  pub outbound-Keeps :
      (r : Router) (frame : Option Frame) → IsFrame frame → IsSound r → Keeps (outbound r frame)
  unfolding outbound
  outbound-Keeps r none b h = skipped r h
  outbound-Keeps r (some f) b h =
      let got = receive-IsSound r f b h in
      if-Keeps (ltb (length (received f)) min_header) _ _ (skipped _ got) (λ _.
        if-Keeps f.is_outgoing _ _ (skipped _ got)
          (λ _. screen_outbound-Keeps _ _ (learn_proxy-IsSound (receive r f) f got)))
