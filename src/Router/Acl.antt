-- ===== src/Router/Acl.antt =====
-- evaluate_acl of ScreeningRouter/main.cpp, its types and the rule table of main.
use bartimaeus_app.Base.{
  ℕ, ◌≡◌, refl, sym, ◌∙◌, ◌↔◌, ◌⊎◌, inl, inr, Bool, true, false, not, ◌&&◌, List, [], ◌∷◌, arith,
  ◌==◌, if◌then◌else◌, Bool-cases,
}
use bartimaeus_app.Base.Bytes.{Bytes, bytes}

pub data Action : Type 0 where
  allow deny : Action

pub record FiveTuple : Type 0 where
  pub protocol : ℕ
  pub src_ip : ℕ
  pub dst_ip : ℕ
  pub src_port : ℕ
  pub dst_port : ℕ

pub record AclRule : Type 0 where
  pub rule_name : Bytes
  pub criteria : FiveTuple
  pub action : Action

pub record AclMatchResult : Type 0 where
  pub action : Action
  pub rule_name : Bytes

-- The test that makes the loop go on: the criterion is set and the packet has another value.
abbrev differs : ℕ → ℕ → Bool
differs wanted given = not (wanted == 0) && not (wanted == given)

unfoldable pub evaluate_acl : List AclRule → FiveTuple → AclMatchResult
evaluate_acl [] packet = record { action = deny; rule_name = bytes "Default-Deny" }
evaluate_acl (rule ∷ rules) packet =
    let rest = evaluate_acl rules packet in
    if differs rule.criteria.protocol packet.protocol
    then rest
    else if differs rule.criteria.src_ip packet.src_ip
    then rest
    else if differs rule.criteria.dst_ip packet.dst_ip
    then rest
    else if differs rule.criteria.src_port packet.src_port
    then rest
    else if differs rule.criteria.dst_port packet.dst_port
    then rest
    else record { action = rule.action; rule_name = rule.rule_name }

abbrev pub ipproto_tcp : ℕ
ipproto_tcp = 6

abbrev pub ipproto_udp : ℕ
ipproto_udp = 17

-- The table that main builds: one rule.
unfoldable pub acl_rules : List AclRule
acl_rules =
    record {
      rule_name = bytes "ALLOW_HTTP_8080";
      criteria = record {
        protocol = ipproto_tcp;
        src_ip = 0;
        dst_ip = 0;
        src_port = 0;
        dst_port = 8080;
      };
      action = allow;
    }
    ∷ []

-- A criterion of 0 stands for any value.
abbrev pub Fits : ℕ → ℕ → Type 0
Fits wanted given = (wanted ≡ 0) ⊎ (wanted ≡ given)

pub record Matches (c p : FiveTuple) : Type 0 where
  pub protocol : Fits c.protocol p.protocol
  pub src_ip : Fits c.src_ip p.src_ip
  pub dst_ip : Fits c.dst_ip p.dst_ip
  pub src_port : Fits c.src_port p.src_port
  pub dst_port : Fits c.dst_port p.dst_port

-- The first rule that matches decides, and with none the packet is denied.
pub data FirstMatch (p : FiveTuple) : List AclRule → AclMatchResult → Type 0 where
  hit :
      (r : AclRule) (rs : List AclRule) {res : AclMatchResult}
      → Matches r.criteria p
      → res ≡ record { action = r.action; rule_name = r.rule_name }
      → FirstMatch p (r ∷ rs) res
  miss :
      (r : AclRule) (rs : List AclRule) {res : AclMatchResult}
      → ¬ Matches r.criteria p
      → FirstMatch p rs res
      → FirstMatch p (r ∷ rs) res
  default :
      {res : AclMatchResult}
      → res ≡ record { action = deny; rule_name = bytes "Default-Deny" }
      → FirstMatch p [] res

evaluate_acl-hit :
    (r : AclRule) (rs : List AclRule) (p : FiveTuple)
    → Matches r.criteria p
    → evaluate_acl (r ∷ rs) p ≡ record { action = r.action; rule_name = r.rule_name }
unfolding evaluate_acl
evaluate_acl-hit r rs p m = ground arith

differs-cases :
    (w g : ℕ) → ((differs w g ≡ false) × Fits w g) ⊎ ((differs w g ≡ true) × (¬ Fits w g))
differs-cases w g = elim (Bool-cases (differs w g)) [
  | inl d ↦ inr (d, λ h. ground arith)
  | inr s ↦ inl (s, ground arith)
]

module _ (r : AclRule) (rs : List AclRule) (p : FiveTuple) where
  -- A packet fits the criteria, or the loop goes on to the next rule.
  rule_cases :
      Matches r.criteria p
      ⊎ ((¬ Matches r.criteria p) × (evaluate_acl (r ∷ rs) p ≡ evaluate_acl rs p))
  unfolding evaluate_acl
  rule_cases = elim (differs-cases r.criteria.protocol p.protocol) [
    | inr (d, n) ↦ inr (λ m. n m.protocol, rw d refl)
    | inl (d1, f1) ↦ elim (differs-cases r.criteria.src_ip p.src_ip) [
      | inr (d, n) ↦ inr (λ m. n m.src_ip, rw (d1, d) refl)
      | inl (d2, f2) ↦ elim (differs-cases r.criteria.dst_ip p.dst_ip) [
        | inr (d, n) ↦ inr (λ m. n m.dst_ip, rw (d1, d2, d) refl)
        | inl (d3, f3) ↦ elim (differs-cases r.criteria.src_port p.src_port) [
          | inr (d, n) ↦ inr (λ m. n m.src_port, rw (d1, d2, d3, d) refl)
          | inl (d4, f4) ↦ elim (differs-cases r.criteria.dst_port p.dst_port) [
            | inr (d, n) ↦ inr (λ m. n m.dst_port, rw (d1, d2, d3, d4, d) refl)
            | inl (d5, f5) ↦
                inl
                  (record { protocol = f1; src_ip = f2; dst_ip = f3; src_port = f4; dst_port = f5 })
          ]
        ]
      ]
    ]
  ]

evaluate_acl-nil :
    (p : FiveTuple) → evaluate_acl [] p ≡ record { action = deny; rule_name = bytes "Default-Deny" }
unfolding evaluate_acl
evaluate_acl-nil p = refl

evaluate_acl-FirstMatch :
    (rules : List AclRule) (p : FiveTuple) (res : AclMatchResult)
    → evaluate_acl rules p ≡ res
    → FirstMatch p rules res
evaluate_acl-FirstMatch [] p res e = default (sym e ∙ evaluate_acl-nil p)
evaluate_acl-FirstMatch (r ∷ rs) p res e = elim (rule_cases r rs p) [
  | inl m ↦ hit r rs m (sym e ∙ evaluate_acl-hit r rs p m)
  | inr (n, skips) ↦ miss r rs n (evaluate_acl-FirstMatch rs p res (sym skips ∙ e))
]

FirstMatch-evaluate_acl :
    {p : FiveTuple} {rules : List AclRule} {res : AclMatchResult}
    → FirstMatch p rules res
    → evaluate_acl rules p ≡ res
FirstMatch-evaluate_acl {p} (hit r rs m e) = evaluate_acl-hit r rs p m ∙ sym e
FirstMatch-evaluate_acl {p} (miss r rs n f) = elim (rule_cases r rs p) [
  | inl m ↦ absurd (n m)
  | inr (_, skips) ↦ skips ∙ FirstMatch-evaluate_acl f
]
FirstMatch-evaluate_acl {p} (default e) = evaluate_acl-nil p ∙ sym e

-- evaluate_acl gives the action of the first rule whose five criteria all fit the packet, a
-- criterion of 0 fitting everything, and denies a packet that no rule fits.
pub evaluate_acl_iff :
    (rules : List AclRule) (p : FiveTuple) (res : AclMatchResult)
    → (evaluate_acl rules p ≡ res) ↔ FirstMatch p rules res
evaluate_acl_iff rules p res = (evaluate_acl-FirstMatch rules p res, FirstMatch-evaluate_acl)

-- With the router's own table exactly the TCP packets to port 8080 pass.
pub acl_rules_allow :
    (p : FiveTuple)
    → ((evaluate_acl acl_rules p).action ≡ allow)
      ↔ ((p.protocol ≡ ipproto_tcp) × (p.dst_port ≡ 8080))
unfolding evaluate_acl acl_rules
acl_rules_allow p = ground arith
