-- ===== src/Router/Segment/Right.antt =====
-- The segment's checksum behind the update in ScreeningRouter/main.cpp, as the receiver finds it.
use bartimaeus_app.Base.{
  ℕ, ◌+◌, ◌-◌, ◌%◌, ◌/◌, ◌≤◌, ◌<◌, ◌≡◌, refl, sym, ap, ◌∙◌, ◌⊎◌, inl, inr, true, ◌∷◌, ◌++◌, some,
  arith, ltb, length, All, All-append, [], Bool-cases,
}
use bartimaeus_app.Base.Bytes.{Bytes}
use bartimaeus_app.Hex.{IsByte}
use bartimaeus_app.Router.Checksum.{calculate_checksum}
use bartimaeus_app.Router.Memory.{
  Memory, load16_be, store16, bytes_from, bytes_from-cong, bytes_from-IsByte,
}
use bartimaeus_app.Router.Transport.{header_length, pseudo_header, update_transport_checksum}
use bartimaeus_app.Router.Header.{header_length-cong, AreBytes}
use bartimaeus_app.Router.Pipeline.{has_ports}
use bartimaeus_app.Router.Segment.{check_offset, segment_length, IsRightAt, IsRight}
use bartimaeus_app.Router.Segment.Updated.{
  IsUpdated, update-IsUpdated, updated-other, check_offset-cong, check_offset_cases,
}
use bartimaeus_app.Router.Segment.Field.{summed, segment_verifies}
use bartimaeus_app.Router.Updates.{load16_be-cong}

pseudo_header-cong :
    (m m' : Memory) (protocol len : ℕ)
    → bytes_from m' 12 8 ≡ bytes_from m 12 8
    → pseudo_header m' protocol len ≡ pseudo_header m protocol len
unfolding pseudo_header
pseudo_header-cong m m' protocol len e =
    ap (λ (s : Bytes). s ++ 0 ∷ protocol ∷ len / 256 ∷ len % 256 ∷ []) e

segment_length-cong :
    (m m' : Memory)
    → m' 9 ≡ m 9
    → header_length m' ≡ header_length m
    → load16_be m' 2 ≡ load16_be m 2
    → load16_be m' (header_length m + 4) ≡ load16_be m (header_length m + 4)
    → segment_length m' ≡ segment_length m
segment_length-cong m m' protocol header total udp = rw (protocol, header, total, udp) refl

pseudo_header-IsByte :
    (m : Memory) (protocol len : ℕ)
    → AreBytes m
    → protocol < 256
    → len < 65536
    → All IsByte (pseudo_header m protocol len)
unfolding pseudo_header
pseudo_header-IsByte m protocol len b small h =
    All-append IsByte (bytes_from m 12 8) (0 ∷ protocol ∷ len / 256 ∷ len % 256 ∷ [])
      (bytes_from-IsByte m 12 8 b) (omega arith, (small, (omega arith, (omega arith, tt))))

length-pseudo_header : (m : Memory) (protocol len : ℕ) → length (pseudo_header m protocol len) ≡ 12
unfolding pseudo_header bytes_from
length-pseudo_header m protocol len = refl

IsRightAt-cong :
    (m : Memory) (o o' h h' l l' : ℕ) (s s' : Bytes)
    → o' ≡ o
    → h' ≡ h
    → l' ≡ l
    → s' ≡ s
    → IsRightAt m o h l s
    → IsRightAt m o' h' l' s'
IsRightAt-cong m o o' h h' l l' s s' eo eh el es r = rw (eo, eh, el, es) r

stored_sum :
    (m m' : Memory) (pseudo : Bytes) (h o n c l : ℕ)
    → m' ≡ store16 (store16 m (h + o) 0) (h + o) c
    → l ≡ o + 2 + n
    → calculate_checksum
        (pseudo ++ bytes_from (store16 (store16 m (h + o) 0) (h + o) c) h (o + 2 + n))
      ≡ 0
    → calculate_checksum (pseudo ++ bytes_from m' h l) ≡ 0
stored_sum m m' pseudo h o n c l stored e sum = rw (stored, e) sum

right_sum :
    (pseudo : Bytes) (z : Memory) (h o n l c x : ℕ)
    → l ≡ o + 2 + n
    → calculate_checksum (pseudo ++ bytes_from z h (o + 2 + n)) ≡ x
    → (c ≡ calculate_checksum (pseudo ++ bytes_from z h l))
      ⊎ ((calculate_checksum (pseudo ++ bytes_from z h l) ≡ 0) × (c ≡ 65535))
    → (c ≡ x) ⊎ ((x ≡ 0) × (c ≡ 65535))
right_sum pseudo z h o n l c x e sum (inl r) =
    inl (r ∙ ap (λ k. calculate_checksum (pseudo ++ bytes_from z h k)) e ∙ sum)
right_sum pseudo z h o n l c x e sum (inr (r, top)) =
    inr (sym (ap (λ k. calculate_checksum (pseudo ++ bytes_from z h k)) e ∙ sum) ∙ r, top)

lt_or_le : (a b : ℕ) → (a < b) ⊎ (b ≤ a)
lt_or_le a b = elim (Bool-cases (ltb a b)) [
  | inl short ↦ inl (ground arith)
  | inr long ↦ inr (ground arith)
]

module _ (m m' : Memory) (b : AreBytes m) (u : IsUpdated m m') where
  abbrev len : ℕ
  len = segment_length m

  abbrev offset : ℕ
  offset = check_offset m

  abbrev pseudo : Bytes
  pseudo = pseudo_header m (m 9) len

  segment_right :
      (n : ℕ)
      → len ≡ offset + 2 + n
      → calculate_checksum (pseudo ++ bytes_from m' (header_length m) len) ≡ 0
  segment_right n e =
      let size = length-pseudo_header m (m 9) len in
      let even = check_offset_cases m in
      let h = header_length m in
      let fits : 12 + len ≤ 2048 = u.fits in
      stored_sum m m' pseudo h offset n u.checksum len u.stored e (
        segment_verifies m pseudo h offset n u.checksum b
          (pseudo_header-IsByte m (m 9) len b (b 9) (omega arith)) (omega (arith, size))
          (omega arith) (omega (arith, size, e))
          (right_sum pseudo (store16 m (h + offset) 0) h offset n len u.checksum _ e
            (summed m pseudo h offset n u.checksum) u.right))

  kept : (j : ℕ) → j < header_length m + 6 → m' j ≡ m j
  kept j h = let o = check_offset_cases m in updated-other m m' j u (inl (omega arith))

  header_kept : header_length m' ≡ header_length m
  header_kept = header_length-cong m' m (kept 0 (omega arith))

  length_kept : 20 ≤ header_length m → segment_length m' ≡ len
  length_kept long =
      segment_length-cong m m' (kept 9 (omega arith)) header_kept
        (load16_be-cong m' m 2 (kept 2 (omega arith)) (kept 3 (omega arith)))
        (load16_be-cong m' m (header_length m + 4) (kept _ (omega arith)) (kept _ (omega arith)))

  pseudo_kept : 20 ≤ header_length m → pseudo_header m' (m' 9) (segment_length m') ≡ pseudo
  pseudo_kept long =
      ap (λ (protocol : ℕ). pseudo_header m' protocol (segment_length m')) (kept 9 (omega arith))
      ∙ ap (pseudo_header m' (m 9)) (length_kept long)
      ∙ pseudo_header-cong m m' (m 9) len
          (bytes_from-cong m' m 12 8 (λ j _ h. kept j (omega arith)))

  updated-IsRight : 20 ≤ header_length m → IsRight m'
  updated-IsRight long =
      IsRightAt-cong m' offset (check_offset m') (header_length m) (header_length m') len
        (segment_length m') pseudo (pseudo_header m' (m' 9) (segment_length m'))
        (check_offset-cong m m' (kept 9 (omega arith))) header_kept (length_kept long)
        (pseudo_kept long)
        (elim (lt_or_le len (offset + 2)) [
          | inl short ↦ inl short
          | inr whole ↦ inr (segment_right (len - (offset + 2)) (omega arith))
        ])

-- The segment's checksum is right behind the update, as the receiver computes it with what stands in
-- the buffer then.
pub update-IsRight :
    (m m' : Memory)
    → AreBytes m
    → 20 ≤ header_length m
    → has_ports m ≡ true
    → update_transport_checksum m ≡ some m'
    → IsRight m'
update-IsRight m m' b long ports e = updated-IsRight m m' b (update-IsUpdated m m' ports e) long
