-- ===== src/Auth/Runs.antt =====
-- Runs of the ledger, some from ledger_test.go, and its theorems at concrete inputs.
use mathlib.Core.List.Perm
use mqtt_protocol_v.Common.{◌≡◌, ◌⊎◌, refl, true, false, none, some, [], ◌∷◌}
use mqtt_protocol_v.Common.Equality.{bytes_eq, codes}
use mqtt_protocol_v.Common.Split.{split, join, index_of}
use mqtt_protocol_v.Auth.{
  Ledger, ClientInfo, read_only, deny, matches, match_topic, filter_matches, rule_verdict, auth_ok,
  acl_ok, known_user, user_of, user_acl,
}
use mqtt_protocol_v.Auth.Topics.{filter_matches_below}
use mqtt_protocol_v.Auth.Rules.{
  rule_verdict-Perm, SplitsAt, Ignores, Admits, IsTrusted, IsSilent, Denies, auth_ok_sound,
  acl_ok-Denies,
}

match_topic_runs :
    (match_topic (codes "a/+/c/+") (codes "a/b/c/d") ≡ (codes "b" ∷ codes "d" ∷ [], true))
    × (match_topic (codes "stuff/#") (codes "stuff/things/yeah") ≡ (codes "things/yeah" ∷ [], true))
    × (match_topic (codes "a/+/#/+") (codes "a/b/c/d/as/dds")
        ≡ (codes "b" ∷ codes "c/d/as/dds" ∷ [], true))
    × (match_topic (codes "t") (codes "t2") ≡ ([], false))
unfolding match_topic split join bytes_eq
match_topic_runs = (refl, refl, refl, refl)

filter_matches_below_example : filter_matches (codes "a/b") (codes "a/b/c") ≡ true
unfolding match_topic split bytes_eq
filter_matches_below_example = filter_matches_below (codes "a/b") (codes "a/b") (codes "c") refl

abbrev ledger : Ledger
ledger = record {
  users = none;
  auth =
      record {
        client = [];
        username = codes "mo*";
        remote = [];
        password = codes "melon";
        allow = true;
      }
      ∷ [];
  acl =
      record {
        client = [];
        username = [];
        remote = [];
        filters = (codes "a/b", read_only) ∷ (codes "c/#", deny) ∷ [];
      }
      ∷ [];
}

abbrev mochi : ClientInfo
mochi = record { id = codes "c1"; username = codes "mochi"; remote = codes "10.0.0.1" }

rule_verdict-Perm_example :
    rule_verdict ((codes "a/b", read_only) ∷ (codes "c/#", deny) ∷ []) (codes "c/d") false
    ≡ rule_verdict ((codes "c/#", deny) ∷ (codes "a/b", read_only) ∷ []) (codes "c/d") false
rule_verdict-Perm_example =
    rule_verdict-Perm ((codes "a/b", read_only) ∷ (codes "c/#", deny) ∷ [])
      ((codes "c/#", deny) ∷ (codes "a/b", read_only) ∷ []) (codes "c/d") false
      (Perm.swap (codes "c/#", deny) (codes "a/b", read_only) [])

auth_ok_sound_example :
    IsTrusted mochi (codes "melon") none
    ⊎ SplitsAt
        (Ignores mochi (codes "melon"))
        (Admits mochi (codes "melon"))
        ledger.auth
        (auth_ok ledger mochi (codes "melon")).0
unfolding auth_ok matches bytes_eq index_of known_user user_of
auth_ok_sound_example = auth_ok_sound mochi (codes "melon") ledger refl

acl_ok-Denies_example :
    (user_acl none (codes "c/d") false ≡ some false)
    ⊎ SplitsAt
        (IsSilent mochi (codes "c/d") false)
        (Denies mochi (codes "c/d") false)
        ledger.acl
        (acl_ok ledger mochi (codes "c/d") false).0
unfolding acl_ok matches bytes_eq user_acl user_of rule_verdict match_topic split
acl_ok-Denies_example = acl_ok-Denies mochi (codes "c/d") false ledger refl
