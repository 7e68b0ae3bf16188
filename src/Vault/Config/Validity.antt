-- ===== src/Vault/Config/Validity.antt =====
-- vault.rs: what `validate_state` accepts, the round trip of a tag, and that a new vault is valid.
use roshi.Common.{ℕ, ◌-◌, ◌≤◌, ◌<◌, ◌≡◌, ◌↔◌, arith, Bool, false, ltb, ◌==◌, ◌||◌, ◌++◌}
use roshi.Common.Result.{ok, IsOk, fail_if, >>=-eq-ok}
use roshi.Common.Error.{program_error, invalid_vault_tag, invalid_vault_state}
use roshi.Common.Bytes.{
  Bytes, bytes_eq, length, take, replicate, take-length-append, length-append, length-replicate,
  length-take,
}
use roshi.Common.Int.{◌≤ℤ◌, ltb_ℤ}
use roshi.Math.{validate_percentage_bps, bps_denominator}
use roshi.Oracle.{validate}
use roshi.Vault.{Vault, bool_flag}
use roshi.Vault.Config.{
  NewVault, new_vault, initial_vault, validate_state, validate_config, validate_controls,
  validate_oracle, validate_flags, validate_tag, pack_tag, unpack_tag, max_tag_len,
}

pack_tag_inv :
    (tag packed : Bytes) (len : ℕ)
    → pack_tag tag ≡ ok (packed, len)
    → (validate_tag tag ≡ ok tt)
      × (length tag ≤ max_tag_len)
      × (packed ≡ tag ++ replicate (max_tag_len - length tag) 0)
      × (len ≡ length tag)
unfolding pack_tag validate_tag
pack_tag_inv tag packed len h = ground arith

-- A vault tag that `pack_tag` accepts is packed into 32 bytes and its length, and unpacks to itself.
pub unpack_tag-pack_tag :
    (tag packed : Bytes) (len : ℕ)
    → pack_tag tag ≡ ok (packed, len)
    → (length packed ≡ max_tag_len) × (unpack_tag packed len ≡ ok tag)
unfolding unpack_tag
unpack_tag-pack_tag tag packed len h =
    let (valid, short, bytes, count) = pack_tag_inv tag packed len h in
    let pad : Bytes = replicate (max_tag_len - length tag) 0 in
    let whole : length (tag ++ pad) ≡ max_tag_len = omega (
      arith,
      length-append tag pad,
      length-replicate {0} {A = ℕ} (max_tag_len - length tag) 0,
      short,
    ) in
    let room : ltb (length (tag ++ pad)) (length tag) ≡ false = ground (arith, whole, short) in
    rw (bytes, count) (whole, rw (room, take-length-append tag pad, valid))

abbrev pub Flags : Vault → Type 0
Flags v =
    (v.deposits_paused_flag < 2)
    × (v.withdrawals_paused_flag < 2)
    × (v.manage_paused_flag < 2)
    × (v.private_flag < 2)
    × (v.external_enabled_flag < 2)

-- What a stored vault satisfies.
pub record IsValid (v : Vault) : Type 0 where
  pub tag_nonempty : 0 < v.tag_len
  pub tag_fits : v.tag_len ≤ max_tag_len
  pub fee : v.performance_fee_bps ≤ bps_denominator
  pub buffer : v.withdrawal_buffer_bps ≤ bps_denominator
  pub mints : bytes_eq v.base_mint v.share_mint ≡ false
  pub decimals : v.base_decimals ≤ 9
  pub oracle : validate v.base_oracle ≡ ok tt
  pub redeem_fee : v.controls.atomic_redeem_fee_bps ≤ bps_denominator
  pub slippage : v.controls.max_swap_slippage_bps ≤ bps_denominator
  pub locked : v.locked_profit ≤ v.total_assets
  pub ordered : v.profit_unlock_start_ts ≤ℤ v.profit_unlock_end_ts
  pub flags : Flags v

bool_flag-eq : (b : ℕ) → b < 2 → bool_flag b ≡ ok (b == 1)
unfolding bool_flag
bool_flag-eq b h = ground arith

bool_flag-lt : (b : ℕ) {a : Bool} → bool_flag b ≡ ok a → b < 2
unfolding bool_flag
bool_flag-lt b h = ground arith

validate_flags-eq : (v : Vault) → Flags v → validate_flags v ≡ ok tt
unfolding validate_flags
validate_flags-eq v (a, b, c, d, e) = rw (
  bool_flag-eq v.deposits_paused_flag a,
  bool_flag-eq v.withdrawals_paused_flag b,
  bool_flag-eq v.manage_paused_flag c,
  bool_flag-eq v.private_flag d,
  bool_flag-eq v.external_enabled_flag e,
)

validate_flags_inv : (v : Vault) → validate_flags v ≡ ok tt → Flags v
unfolding validate_flags
validate_flags_inv v h =
    let (_, a, h) = >>=-eq-ok (bool_flag v.deposits_paused_flag) _ h in
    let (_, b, h) = >>=-eq-ok (bool_flag v.withdrawals_paused_flag) _ h in
    let (_, c, h) = >>=-eq-ok (bool_flag v.manage_paused_flag) _ h in
    let (_, d, h) = >>=-eq-ok (bool_flag v.private_flag) _ h in
    let (_, e, _) = >>=-eq-ok (bool_flag v.external_enabled_flag) _ h in
    (
      bool_flag-lt v.deposits_paused_flag a,
      bool_flag-lt v.withdrawals_paused_flag b,
      bool_flag-lt v.manage_paused_flag c,
      bool_flag-lt v.private_flag d,
      bool_flag-lt v.external_enabled_flag e,
    )

unpack_tag-IsOk :
    (tag : Bytes) (len : ℕ)
    → length tag ≡ max_tag_len
    → 0 < len
    → len ≤ max_tag_len
    → IsOk (unpack_tag tag len)
unfolding unpack_tag validate_tag
unpack_tag-IsOk tag len whole pos fits =
    let cut : length (take len tag) ≡ len = length-take len tag (omega arith) in
    let room : ltb (length tag) len ≡ false = ground (arith, whole, fits) in
    (take len tag, rw (room, cut) (ground arith))

unpack_tag_inv :
    (tag : Bytes) (len : ℕ) {a : Bytes}
    → length tag ≡ max_tag_len
    → unpack_tag tag len ≡ ok a
    → (0 < len) × (len ≤ max_tag_len)
unfolding unpack_tag validate_tag
unpack_tag_inv tag len whole h =
    let (_, room, rest) =
      >>=-eq-ok (fail_if (ltb (length tag) len) (program_error invalid_vault_tag)) _ h in
    let fits : len ≤ length tag = ground (arith, room) in
    let (_, valid, _) =
      >>=-eq-ok
        (fail_if (length (take len tag) == 0 || ltb max_tag_len (length (take len tag)))
          (program_error invalid_vault_tag))
        _ rest in
    let cut : length (take len tag) ≡ len = length-take len tag fits in
    (ground (arith, valid, cut), omega arith)

config_eq :
    (v : Vault)
    → IsValid v
    → (validate_config v.base_mint v.share_mint v.base_decimals v.performance_fee_bps
          v.withdrawal_buffer_bps
        ≡ ok tt)
      × (validate_controls v.controls ≡ ok tt)
unfolding validate_config validate_controls validate_percentage_bps
config_eq v valid = (ground (arith, valid), ground (arith, valid))

config_inv :
    (v : Vault)
    → validate_config v.base_mint v.share_mint v.base_decimals v.performance_fee_bps
        v.withdrawal_buffer_bps
      ≡ ok tt
    → validate_controls v.controls ≡ ok tt
    → (v.performance_fee_bps ≤ bps_denominator)
      × (v.withdrawal_buffer_bps ≤ bps_denominator)
      × (bytes_eq v.base_mint v.share_mint ≡ false)
      × (v.base_decimals ≤ 9)
      × (v.controls.atomic_redeem_fee_bps ≤ bps_denominator)
      × (v.controls.max_swap_slippage_bps ≤ bps_denominator)
unfolding validate_config validate_controls validate_percentage_bps
config_inv v h k = ground arith

oracle-eq : (v : Vault) → validate v.base_oracle ≡ ok tt → validate_oracle v.base_oracle ≡ ok tt
unfolding validate_oracle
oracle-eq v h = rw h

oracle_inv : (v : Vault) → validate_oracle v.base_oracle ≡ ok tt → validate v.base_oracle ≡ ok tt
unfolding validate_oracle
oracle_inv v h = ground arith

IsValid→ok : (v : Vault) → length v.tag ≡ max_tag_len → IsValid v → validate_state v ≡ ok tt
unfolding validate_state
IsValid→ok v whole valid =
    let (seed, tag) = unpack_tag-IsOk v.tag v.tag_len whole valid.tag_nonempty valid.tag_fits in
    let (config, controls) = config_eq v valid in
    let locked : ltb v.total_assets v.locked_profit ≡ false = ground (arith, valid.locked) in
    let ordered : ltb_ℤ v.profit_unlock_end_ts v.profit_unlock_start_ts ≡ false =
      ground (arith, valid.ordered) in
    rw (tag, config, oracle-eq v valid.oracle, controls, locked, ordered)
      (validate_flags-eq v valid.flags)

ok→IsValid : (v : Vault) → length v.tag ≡ max_tag_len → validate_state v ≡ ok tt → IsValid v
unfolding validate_state
ok→IsValid v whole h =
    let (_, tag, h) = >>=-eq-ok (unpack_tag v.tag v.tag_len) _ h in
    let (_, config, h) =
      >>=-eq-ok
        (validate_config v.base_mint v.share_mint v.base_decimals v.performance_fee_bps
          v.withdrawal_buffer_bps)
        _ h in
    let (_, oracle, h) = >>=-eq-ok (validate_oracle v.base_oracle) _ h in
    let (_, controls, h) = >>=-eq-ok (validate_controls v.controls) _ h in
    let (_, locked, h) =
      >>=-eq-ok (fail_if (ltb v.total_assets v.locked_profit) (program_error invalid_vault_state)) _
        h in
    let (_, ordered, flags) =
      >>=-eq-ok
        (fail_if (ltb_ℤ v.profit_unlock_end_ts v.profit_unlock_start_ts)
          (program_error invalid_vault_state))
        _ h in
    let (pos, fits) = unpack_tag_inv v.tag v.tag_len whole tag in
    let (fee, buffer, mints, decimals, redeem_fee, slippage) = config_inv v config controls in
    record {
      tag_nonempty = pos;
      tag_fits = fits;
      fee = fee;
      buffer = buffer;
      mints = mints;
      decimals = decimals;
      oracle = oracle_inv v oracle;
      redeem_fee = redeem_fee;
      slippage = slippage;
      locked = ground (arith, locked);
      ordered = ground (arith, ordered);
      flags = validate_flags_inv v flags;
    }

-- `validate_state` accepts a vault, whose tag is stored in 32 bytes, exactly when it is valid.
pub validate_state_iff :
    (v : Vault) → length v.tag ≡ max_tag_len → (validate_state v ≡ ok tt) ↔ IsValid v
validate_state_iff v whole = (ok→IsValid v whole, IsValid→ok v whole)

-- A vault that `Vault::new` makes passes `validate_state`, so it can be loaded again.
pub new_vault-validate_state :
    (a : NewVault) {v : Vault} → new_vault a ≡ ok v → validate_state v ≡ ok tt
unfolding new_vault initial_vault validate_state validate_flags bool_flag
new_vault-validate_state a {v} h =
    let (_, config, h) =
      >>=-eq-ok
        (validate_config a.base_mint a.share_mint a.base_decimals a.performance_fee_bps
          a.withdrawal_buffer_bps)
        _ h in
    let (_, controls, h) = >>=-eq-ok (validate_controls a.controls) _ h in
    let (_, oracle, h) = >>=-eq-ok (validate_oracle a.base_oracle) _ h in
    let ((packed, len), tag, made) = >>=-eq-ok (pack_tag a.tag) _ h in
    let same : v ≡ initial_vault a packed len = cc (made) in
    rw (same, (unpack_tag-pack_tag a.tag packed len tag).1, config, oracle, controls) (ground arith)
