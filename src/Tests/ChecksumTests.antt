-- ===== src/Tests/ChecksumTests.antt =====
-- The rules and the checksum of the router, at the values of a client's first packet.
use bartimaeus_app.Base.{◌/◌, ◌%◌, ◌≡◌, refl, ◌↔◌, true, [], ◌∷◌, ◌++◌, arith, all, ltb, All}
use bartimaeus_app.Base.Bytes.{Bytes, bytes}
use bartimaeus_app.Hex.{IsByte}
use bartimaeus_app.Router.Acl.{
  FiveTuple, allow, evaluate_acl, acl_rules, evaluate_acl_iff, FirstMatch,
}
use bartimaeus_app.Router.Memory.{ip}
use bartimaeus_app.Router.Checksum.{calculate_checksum, checksum_verifies}

-- Tested bytes are bytes.
pub all_bytes : (s : Bytes) → all (λ c. ltb c 256) s ≡ true → All IsByte s
all_bytes [] h = tt
all_bytes (c ∷ s) h = (ground arith, all_bytes s (ground arith))

abbrev request : FiveTuple
request = record {
  protocol = 6;
  src_ip = ip 203 0 113 7;
  dst_ip = ip 10 10 0 2;
  src_port = 40000;
  dst_port = 8080;
}

evaluate_acl_iff_example :
    (evaluate_acl acl_rules request
      ≡ record { action = allow; rule_name = bytes "ALLOW_HTTP_8080" })
    ↔ FirstMatch request acl_rules (record { action = allow; rule_name = bytes "ALLOW_HTTP_8080" })
evaluate_acl_iff_example =
    evaluate_acl_iff acl_rules request
      (record { action = allow; rule_name = bytes "ALLOW_HTTP_8080" })

abbrev header_front : Bytes
header_front = 69 ∷ 0 ∷ 0 ∷ 40 ∷ 0 ∷ 1 ∷ 0 ∷ 0 ∷ 64 ∷ 6 ∷ []

abbrev header_back : Bytes
header_back = 203 ∷ 0 ∷ 113 ∷ 7 ∷ 10 ∷ 10 ∷ 0 ∷ 2 ∷ []

checksum_verifies_example :
    calculate_checksum (
      header_front
      ++ calculate_checksum (header_front ++ 0 ∷ 0 ∷ header_back) % 256
        ∷ calculate_checksum (header_front ++ 0 ∷ 0 ∷ header_back) / 256
        ∷ header_back)
    ≡ 0
checksum_verifies_example =
    checksum_verifies header_front header_back
      (calculate_checksum (header_front ++ 0 ∷ 0 ∷ header_back)) refl refl
      (all_bytes header_front refl) (all_bytes header_back refl) (omega arith)
