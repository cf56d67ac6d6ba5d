-- ===== src/Packets/Packet/Connect/Validation.antt =====
-- Which CONNECT packets `ConnectValidate` accepts.
use mqtt_protocol_v.Common.{
  ℕ, ◌≤◌, ◌≡◌, ◌↔◌, refl, arith, inl, inr, Bool, true, false, ◌&&◌, ◌||◌, not, length, ltb, ◌==◌,
  if◌then◌else◌, Bool-cases,
}
use mqtt_protocol_v.Common.Equality.{Bytes, bytes_eq, bytes_eq_iff, codes}
use mqtt_protocol_v.Packets.Codes.{
  Code, code_success, err_client_identifier_not_valid, err_protocol_violation_protocol_name,
  err_protocol_violation_protocol_version, err_protocol_violation_reserved_bit,
  err_protocol_violation_password_too_long, err_protocol_violation_username_too_long,
  err_protocol_violation_username_no_flag, err_protocol_violation_flag_no_password,
  err_protocol_violation_password_no_flag,
}
use mqtt_protocol_v.Packets.Packet.{Packet, ConnectParams}
use mqtt_protocol_v.Packets.Packet.Connect.{is_mqisdp, is_mqtt, connect_validate, validate_will}
use mqtt_protocol_v.Common.{[]}

-- The protocol's name and version go together.
abbrev pub protocol_fits : Bytes → ℕ → Bool
protocol_fits name version =
    (is_mqisdp name && version == 3) || (is_mqtt name && (version == 4 || version == 5))

-- A user name only under its flag.
abbrev pub username_fits : ConnectParams → Bool
username_fits c = not (ltb 65535 (length c.username)) && (c.username_flag || length c.username == 0)

-- A password exactly under its flag.
abbrev pub password_fits : ConnectParams → Bool
password_fits c =
    not (ltb 65535 (length c.password))
    && (if c.password_flag then ltb 0 (length c.password) else length c.password == 0)

-- Under its flag a will has a topic, a payload and a qos of 2 at most; without it, it is not retained.
abbrev pub will_fits : ConnectParams → Bool
will_fits c =
    if c.will_flag
    then ltb 0 (length c.will_payload) && (not (bytes_eq c.will_topic []) && not (ltb 2 c.will_qos))
    else not c.will_retain

validate_will_accepts :
    (c : ConnectParams) → (validate_will c ≡ code_success) ↔ (will_fits c ≡ true)
unfolding validate_will
validate_will_accepts c = ground arith

-- the guards before the will, with what they test left open
guards :
    (b₁ b₂ b₃ b₄ b₅ b₆ b₇ b₈ b₉ : Bool) (rest : Code)
    → ((if b₁
          then err_protocol_violation_protocol_name
          else if b₂
          then err_protocol_violation_protocol_version
          else if b₃
          then err_protocol_violation_reserved_bit
          else if b₄
          then err_protocol_violation_password_too_long
          else if b₅
          then err_protocol_violation_username_too_long
          else if b₆
          then err_protocol_violation_username_no_flag
          else if b₇
          then err_protocol_violation_flag_no_password
          else if b₈
          then err_protocol_violation_password_no_flag
          else if b₉
          then err_client_identifier_not_valid
          else rest)
        ≡ code_success)
      ↔ ((b₁ ≡ false)
          × (b₂ ≡ false)
          × (b₃ ≡ false)
          × (b₄ ≡ false)
          × (b₅ ≡ false)
          × (b₆ ≡ false)
          × (b₇ ≡ false)
          × (b₈ ≡ false)
          × (b₉ ≡ false)
          × (rest ≡ code_success))
guards b₁ b₂ b₃ b₄ b₅ b₆ b₇ b₈ b₉ rest = ground arith

-- the two guards on the protocol, where a name is not both
protocol_guards :
    (old new v3 v4 v5 : Bool)
    → (old && new) ≡ false
    → (((not old && not new) ≡ false) × ((old && not v3 || (new && (not v4 && not v5))) ≡ false))
      ↔ (((old && v3) || (new && (v4 || v5))) ≡ true)
protocol_guards old new v3 v4 v5 apart = ground arith

one_name : (name : Bytes) → (is_mqisdp name && is_mqtt name) ≡ false
one_name name = elim (Bool-cases (is_mqisdp name)) [
  | inr other ↦ rw other refl
  | inl old ↦ rw ((bytes_eq_iff name (codes "MQIsdp")).0 old) (unfold bytes_eq in refl)
]

-- `ConnectValidate` answers success exactly for a packet whose protocol name and version go together,
-- whose reserved bit is 0, whose user name, password and client identifier are at most 65535 bytes
-- long, and whose user name, password and will are as their flags say.
pub connect_validate_accepts :
    (pk : Packet)
    → (connect_validate pk ≡ code_success) ↔ (
        (protocol_fits pk.connect.protocol_name pk.protocol_version ≡ true)
        × (pk.reserved_bit ≡ 0)
        × (username_fits pk.connect ≡ true)
        × (password_fits pk.connect ≡ true)
        × (length pk.connect.client_identifier ≤ 65535)
        × (will_fits pk.connect ≡ true))
unfolding connect_validate
connect_validate_accepts pk =
    let c = pk.connect in
    let v = pk.protocol_version in
    let (to, from) = guards _ _ _ _ _ _ _ _ _ (validate_will c) in
    let names =
      protocol_guards (is_mqisdp c.protocol_name) (is_mqtt c.protocol_name) (v == 3) (v == 4)
        (v == 5) (one_name c.protocol_name) in
    let will = validate_will_accepts c in
    (
      λ h.
          let (n, p, r, w, u, uf, wf, pf, i, e) = to h in
          (
            names.0 (n, p),
            ground (arith, r),
            ground (arith, u, uf),
            ground (arith, w, wf, pf),
            ground (arith, i),
            will.0 e,
          ),
      λ (n, r, u, w, i, e). from (
        (names.1 n).0,
        (names.1 n).1,
        ground (arith, r),
        ground (arith, w),
        ground (arith, u),
        ground (arith, u),
        ground (arith, w),
        ground (arith, w),
        ground (arith, i),
        will.1 e,
      ),
    )
