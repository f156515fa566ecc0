-- ===== src/Router/History/Buffers.antt =====
-- The buffer holds bytes, whatever is received into it and stored in it.
use bartimaeus_app.Base.{
  ℕ, zero, suc, ◌+◌, ◌<◌, Bool, true, false, inl, inr, [], ◌∷◌, Option, none, some, arith,
  if◌then◌else◌, take, All,
}
use bartimaeus_app.Base.Bytes.{Bytes}
use bartimaeus_app.Router.Memory.{Memory, store16, overwrite}
use bartimaeus_app.Router.Transport.{header_length, update_transport_checksum}
use bartimaeus_app.Router.Header.{AreBytes, store16-AreBytes}
use bartimaeus_app.Router.Updates.{update_cases}
use bartimaeus_app.Router.Pipeline.{Frame}

-- What recvfrom delivers is bytes.
abbrev pub IsFrame : Option Frame → Type 0
IsFrame none = Unit
IsFrame (some f) = All (λ b. b < 256) f.payload

pub take-IsByte : (n : ℕ) (s : Bytes) → All (λ b. b < 256) s → All (λ b. b < 256) (take n s)
take-IsByte zero s h = tt
take-IsByte (suc n) [] h = tt
take-IsByte (suc n) (c ∷ s) h = (h.0, take-IsByte n s h.1)

pub overwrite-AreBytes :
    (m : Memory) (p : ℕ) (s : Bytes)
    → AreBytes m
    → All (λ b. b < 256) s
    → AreBytes (overwrite m p s)
unfolding overwrite
overwrite-AreBytes m p [] b h j = b j
overwrite-AreBytes m p (c ∷ s) b h j = ground (arith, overwrite-AreBytes m (p + 1) s b h.1 j)

-- Both stores of a transport checksum.
twice-AreBytes : (m : Memory) (p c : ℕ) → AreBytes m → AreBytes (store16 (store16 m p 0) p c)
twice-AreBytes m p c b = store16-AreBytes (store16 m p 0) p c (store16-AreBytes m p 0 b)

abbrev pub HaveBytes : Option Memory → Type 0
HaveBytes none = Unit
HaveBytes (some m) = AreBytes m

if-HaveBytes : (b : Bool) (m : Memory) → AreBytes m → HaveBytes (if b then some m else none)
if-HaveBytes true m h = h
if-HaveBytes false m h = tt

pub update_transport-HaveBytes : (m : Memory) → AreBytes m → HaveBytes (update_transport_checksum m)
update_transport-HaveBytes m b = elim (update_cases m) [
  | inl (_, u) ↦ rw u (if-HaveBytes _ _ (twice-AreBytes m (header_length m + 16) _ b))
  | inr (inl (_, u)) ↦ rw u (if-HaveBytes _ _ (twice-AreBytes m (header_length m + 6) _ b))
  | inr (inr (_, _, u)) ↦ rw u b
]
