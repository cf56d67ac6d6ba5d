-- ===== src/Topics/Filters.antt =====
-- `IsSharedFilter` and `IsValidFilter`.
use mqtt_protocol_v.Common.{
  ℕ, ◌-◌, Bool, true, false, not, ◌&&◌, ◌||◌, Option, none, some, [], ◌∷◌, leb, ◌==◌, length, take,
  if◌then◌else◌,
}
use mqtt_protocol_v.Common.Equality.{Bytes, codes}
use mqtt_protocol_v.Common.Split.{contains, index_of}
use mqtt_protocol_v.Topics.Levels.{isolate_particle}

abbrev pub share_prefix : Bytes
share_prefix = codes "$SHARE"

abbrev pub sys_prefix : Bytes
sys_prefix = codes "$SYS"

-- ASCII letters in upper case
abbrev upper : ℕ → ℕ
upper b = if leb b'a' b && leb b b'z' then b - 32 else b

-- `strings.EqualFold` against ASCII text in upper case that has no K; the long s, of the two bytes 0xc5
-- and 0xbf, is the one other rune that folds to such a letter.
equal_fold : Bytes → Bytes → Bool
equal_fold [] [] = true
equal_fold [] (t ∷ ts) = false
equal_fold (b ∷ bs) [] = false
equal_fold (b ∷ []) (t ∷ ts) = upper b == t && equal_fold [] ts
equal_fold (b ∷ c ∷ bs) (t ∷ ts) =
    let long = equal_fold bs ts in
    let plain = equal_fold (c ∷ bs) ts in
    if b == 0xc5 && c == 0xbf then t == b'S' && long else upper b == t && plain

-- `IsSharedFilter`, and the same test in the other functions
unfoldable pub is_shared_filter : Bytes → Bool
unfolding equal_fold
is_shared_filter filter = equal_fold (isolate_particle filter 0).0 share_prefix

-- no publishing under `$SYS` or to a wildcard
publishable : Bytes → Bool
unfolding equal_fold
publishable filter =
    not (
      leb (length sys_prefix) (length filter)
      && equal_fold (take (length sys_prefix) filter) sys_prefix)
    && not (contains b'+' filter || contains b'#' filter)

-- `#` stands last, if anywhere
hash_last : Bytes → Option ℕ → Bool
hash_last filter none = true
hash_last filter (some i) = i == length filter - 1

-- the tests of a filter with the share prefix, by its second level and whether levels follow
shared_group : Bytes × Bool → Bool
shared_group (group, has_next) = has_next && not (contains b'+' group || contains b'#' group)

-- `IsValidFilter`
unfoldable pub is_valid_filter : Bytes → Bool → Bool
unfolding publishable hash_last shared_group
is_valid_filter filter for_publish =
    if not for_publish && length filter == 0
    then false
    else if for_publish && not (publishable filter)
    then false
    else if not (hash_last filter (index_of b'#' filter))
    then false
    else if not (is_shared_filter filter)
    then true
    else (isolate_particle filter 0).1 && shared_group (isolate_particle filter 1)
