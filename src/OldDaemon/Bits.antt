-- ===== src/OldDaemon/Bits.antt =====
-- The control byte of BBB/old daemon/Dcon.c, bit by bit.
use Prim.Native.Nat.{bit_and, bit_or}
use pcon_tng.Prelude.{
  ℕ, zero, suc, ◌+◌, ◌-◌, ◌^◌, ◌<◌, ◌≤◌, ◌≡◌, refl, sym, ap, ◌∙◌, Bool, true, false, not, ◌&&◌, ltb,
  ◌==◌, if◌then◌else◌, if-true, if-false, Bool-cases, inl, inr, arith,
}
use pcon_tng.Prelude.Below.{all_below, all_below-at, and_left, and_right}
use pcon_tng.TypeDefs.{IpcDat}
use pcon_tng.Daemon.Relays.{chn}
use pcon_tng.OldDaemon.{bit_set, with_bit, control_byte}

-- Setting and clearing one bit of a byte, on all bytes and bits.
same_bool : Bool → Bool → Bool
same_bool true b = b
same_bool false b = not b

same_bool-eq : (a b : Bool) → same_bool a b ≡ true → a ≡ b
unfolding same_bool
same_bool-eq true b h = sym h
same_bool-eq false true h = absurd (ground arith)
same_bool-eq false false h = refl

bit_written : Bool → ℕ → ℕ → ℕ
bit_written off ccb k = if off then bit_and ccb (255 - 2 ^ k) else bit_or ccb (2 ^ k)

is_written : Bool → ℕ → ℕ → ℕ → Bool
is_written off ccb k j =
    ltb (bit_written off ccb k) 256
    && same_bool (bit_set (bit_written off ccb k) j) (if j == k then not off else bit_set ccb j)

written_table : Bool → Bool
written_table off = all_below 256 (λ ccb. all_below 8 (λ k. all_below 8 (is_written off ccb k)))

written_table_lem : (off : Bool) → written_table off ≡ true
unfolding written_table all_below is_written same_bool bit_written
written_table_lem true = refl
written_table_lem false = refl

is_written-at :
    (off : Bool) (ccb k j : ℕ) → ccb < 256 → k < 8 → j < 8 → is_written off ccb k j ≡ true
unfolding written_table
is_written-at off ccb k j hc hk hj =
    let bytes = all_below-at 256 (λ ccb. all_below 8 (λ k. all_below 8 (is_written off ccb k))) in
    let bits = all_below-at 8 (λ k. all_below 8 (is_written off ccb k)) in
    all_below-at 8 (is_written off ccb k) (bits (bytes (written_table_lem off) ccb hc) k hk) j hj

with_bit-byte : (state ccb k : ℕ) → ccb < 256 → k < 8 → with_bit ccb k state < 256
unfolding is_written bit_written
with_bit-byte state ccb k hc hk =
    let off = state == 0 in
    let same =
      same_bool (bit_set (with_bit ccb k state) 0) (if 0 == k then not off else bit_set ccb 0) in
    let h =
      and_left (ltb (with_bit ccb k state) 256) same
        (is_written-at off ccb k 0 hc hk (omega arith)) in
    ground (arith, h)

bit_set-with_bit :
    (state ccb k j : ℕ)
    → ccb < 256
    → k < 8
    → j < 8
    → bit_set (with_bit ccb k state) j ≡ (if j == k then not (state == 0) else bit_set ccb j)
unfolding is_written bit_written
bit_set-with_bit state ccb k j hc hk hj =
    let off = state == 0 in
    let bit = if j == k then not off else bit_set ccb j in
    same_bool-eq (bit_set (with_bit ccb k state) j) bit (
      and_right (ltb (with_bit ccb k state) 256) (same_bool (bit_set (with_bit ccb k state) j) bit)
        (is_written-at off ccb k j hc hk hj))

module _ {F : Type 0} (ipc : IpcDat F) where
  pub control_byte-byte : (k n ccb : ℕ) → k + n ≤ 8 → ccb < 256 → control_byte ipc k n ccb < 256
  unfolding control_byte
  control_byte-byte k zero ccb l hc = hc
  control_byte-byte k (suc n) ccb l hc =
      let written = with_bit-byte (chn ipc (k + 8)).state ccb k hc (omega arith) in
      control_byte-byte (suc k) n (with_bit ccb k (chn ipc (k + 8)).state) (omega arith) written

  -- A bit that is set already stays as it is, and one to come is its channel's state.
  pub bit_set-control_byte :
      (k n ccb j : ℕ)
      → k + n ≡ 8
      → j < 8
      → ccb < 256
      → (j < k → bit_set ccb j ≡ not ((chn ipc (j + 8)).state == 0))
      → bit_set (control_byte ipc k n ccb) j ≡ not ((chn ipc (j + 8)).state == 0)
  unfolding control_byte
  bit_set-control_byte k zero ccb j e hj hc done = done (omega arith)
  bit_set-control_byte k (suc n) ccb j e hj hc done =
      let state = (chn ipc (k + 8)).state in
      let written = with_bit-byte state ccb k hc (omega arith) in
      let bit = bit_set-with_bit state ccb k j hc (omega arith) hj in
      bit_set-control_byte (suc k) n (with_bit ccb k state) j (omega arith) hj written (λ l.
        elim (Bool-cases (j == k)) [
          | inl same ↦
              let here : j ≡ k = ground arith in
              bit ∙ if-true _ _ _ same ∙ ap (λ i. not ((chn ipc (i + 8)).state == 0)) (sym here)
          | inr other ↦ bit ∙ if-false _ _ _ other ∙ done (ground arith)
        ])
