-- ===== src/Marginfi/Balances.antt =====
-- The balances of a MarginFi account as its data holds them, and the adapter's scan of them
-- (programs/adapters/marginfi-usdc/src/lib.rs, `read_asset_shares_for_bank`).
use sol_yield.Base.{
  ℕ, zero, suc, ◌+◌, ◌*◌, ◌^◌, ◌<◌, ◌==◌, leb, not, ◌&&◌, if◌then◌else◌, ◌≡◌, refl, sym, ap, ◌∙◌,
  true, List, [], ◌∷◌, ◌++◌, length, length-append, All, arith,
}
use sol_yield.Base.Bytes.{to_le_bytes, from_le_bytes, length-to_le_bytes, from_le_bytes-to_le_bytes}
use sol_yield.Base.Data.{read_bytes, index}
use sol_yield.Base.Layout.{index-at, read_bytes-at}
use sol_yield.Base.Result.{ok}
use sol_yield.Solana.Account.{Pubkey, pubkey_bytes}
use sol_yield.Marginfi.Types.{
  MarginfiUsdcError, invalid_protocol_account, marginfi_account_balances_offset,
  marginfi_balance_size, marginfi_balance_count,
}
use sol_yield.Marginfi.Fixed.{
  read_pubkey, read_i80f48_raw, scan_balances, read_asset_shares_for_bank,
}
use mathlib.Core.List.{append_assoc}

-- One balance: whether it is active, its bank, the bytes up to its shares, the shares, the rest.
pub record Balance : Type 0 where
  pub active : ℕ
  pub bank : Pubkey
  pub gap : List ℕ
  pub asset_shares : ℕ
  pub others : List ℕ

-- What a balance has to be: the bank is a key, and the shares a fixed-point number from 0 on.
pub record IsBalance (b : Balance) : Type 0 where
  pub bank_fits : b.bank < 256 ^ 32
  pub gap_fills : length b.gap ≡ 7
  pub shares_fit : b.asset_shares < 2 ^ 127
  pub others_fill : length b.others ≡ 48

-- The 104 bytes of a balance.
abbrev pub balance_bytes : Balance → List ℕ
balance_bytes b =
    b.active ∷ (pubkey_bytes b.bank ++ (b.gap ++ (to_le_bytes 16 b.asset_shares ++ b.others)))

abbrev pub balances_bytes : List Balance → List ℕ
balances_bytes [] = []
balances_bytes (b ∷ bs) = balance_bytes b ++ balances_bytes bs

-- The shares of the first active balance in the bank, or none at all.
abbrev pub held : Pubkey → List Balance → ℕ
held bank [] = 0
held bank (b ∷ bs) = if not (b.active == 0) && b.bank == bank then b.asset_shares else held bank bs

length-balance_bytes : (b : Balance) → IsBalance b → length (balance_bytes b) ≡ 104
length-balance_bytes b h =
    let shares = length-append (to_le_bytes 16 b.asset_shares) b.others in
    let tail = length-append b.gap (to_le_bytes 16 b.asset_shares ++ b.others) in
    let all =
      length-append (pubkey_bytes b.bank) (b.gap ++ (to_le_bytes 16 b.asset_shares ++ b.others)) in
    omega (
      arith,
      shares,
      tail,
      all,
      length-to_le_bytes 16 b.asset_shares,
      length-to_le_bytes 32 b.bank,
      h,
    )

module _ (before : List ℕ) (b : Balance) (after : List ℕ) (h : IsBalance b) where
  abbrev here : List ℕ
  here = before ++ (balance_bytes b ++ after)

  flag_here :
      (offset : ℕ)
      → offset ≡ length before
      → index {E = MarginfiUsdcError} here offset ≡ ok b.active
  flag_here offset e = index-at here before b.active _ offset refl e

  bank_here : (offset : ℕ) → offset ≡ length before + 1 → read_pubkey here offset ≡ ok b.bank
  unfolding read_pubkey
  bank_here offset e =
      let words = b.gap ++ (to_le_bytes 16 b.asset_shares ++ b.others) in
      let word : read_bytes 32 invalid_protocol_account here offset ≡ ok (pubkey_bytes b.bank) =
        read_bytes-at 32 invalid_protocol_account here (before ++ (b.active ∷ []))
          (pubkey_bytes b.bank) (words ++ after) offset (simp append_assoc)
          (omega (arith, e, length-append before (b.active ∷ [])))
          (sym (length-to_le_bytes 32 b.bank)) in
      rw word (ap ok (from_le_bytes-to_le_bytes 32 b.bank h.bank_fits))

  shares_here :
      (offset : ℕ) → offset ≡ length before + 40 → read_i80f48_raw here offset ≡ ok b.asset_shares
  unfolding read_i80f48_raw
  shares_here offset e =
      let word_bytes = to_le_bytes 16 b.asset_shares in
      let front = b.active ∷ (pubkey_bytes b.bank ++ b.gap) in
      let front_length = length-append (pubkey_bytes b.bank) b.gap in
      let word : read_bytes 16 invalid_protocol_account here offset ≡ ok word_bytes =
        read_bytes-at 16 invalid_protocol_account here (before ++ front) word_bytes
          (b.others ++ after) offset (simp append_assoc)
          (omega
            (arith, e, length-append before front, front_length, length-to_le_bytes 32 b.bank, h))
          (sym (length-to_le_bytes 16 b.asset_shares)) in
      let value : from_le_bytes word_bytes ≡ b.asset_shares =
        from_le_bytes-to_le_bytes 16 b.asset_shares (omega (arith, h)) in
      rw (word, value) (ground (arith, h.shares_fit))

  -- One round of the scan, at the place of the balance.
  scan_round :
      (bank : Pubkey) (rounds i : ℕ)
      → length before ≡ marginfi_account_balances_offset + i * marginfi_balance_size
      → scan_balances here bank (suc rounds) i ≡ (
          if not (b.active == 0) && b.bank == bank
          then ok b.asset_shares
          else scan_balances here bank rounds (i + 1))
  unfolding scan_balances
  scan_round bank rounds i place =
      let offset = marginfi_account_balances_offset + i * marginfi_balance_size in
      let flag = flag_here (offset + 0) (omega (arith, place)) in
      let key = bank_here (offset + 1) (omega (arith, place)) in
      let shares = shares_here (offset + 40) (omega (arith, place)) in
      let long : length here ≡ length before + (104 + length after) = omega (
        arith,
        length-append before (balance_bytes b ++ after),
        length-append (balance_bytes b) after,
        length-balance_bytes b h,
      ) in
      let fits : leb (offset + 104) (length here) ≡ true = ground (arith, long, place) in
      rw (fits, flag, key, shares)

scan_none : (bytes : List ℕ) (bank : Pubkey) (i : ℕ) → scan_balances bytes bank zero i ≡ ok 0
unfolding scan_balances
scan_none bytes bank i = refl

scan-balances_bytes :
    (before : List ℕ) (bs : List Balance) (after : List ℕ) (bank : Pubkey) (i : ℕ)
    → All IsBalance bs
    → length before ≡ marginfi_account_balances_offset + i * marginfi_balance_size
    → scan_balances (before ++ (balances_bytes bs ++ after)) bank (length bs) i ≡ ok (held bank bs)
scan-balances_bytes before [] after bank i h place = scan_none (before ++ after) bank i
scan-balances_bytes before (b ∷ bs) after bank i h place =
    let rest = balances_bytes bs ++ after in
    let here = before ++ (balance_bytes b ++ rest) in
    let same : before ++ ((balance_bytes b ++ balances_bytes bs) ++ after) ≡ here =
      simp append_assoc in
    let further =
      scan-balances_bytes (before ++ balance_bytes b) bs after bank (i + 1) h.1 (
        omega (arith, length-append before (balance_bytes b), length-balance_bytes b h.0, place)) in
    let further' : scan_balances here bank (length bs) (i + 1) ≡ ok (held bank bs) =
      rw (append_assoc before (balance_bytes b) rest) at further in
    rw same (scan_round before b rest h.0 bank (length bs) i place ∙ ground (arith, further'))

-- From the data of an account with sixteen balances the scan reads the shares of the first active
-- balance in the bank, and zero where no balance is.
pub read_asset_shares_for_bank-held :
    (header : List ℕ) (bs : List Balance) (after : List ℕ) (bank : Pubkey)
    → length header ≡ marginfi_account_balances_offset
    → length bs ≡ marginfi_balance_count
    → All IsBalance bs
    → read_asset_shares_for_bank (header ++ (balances_bytes bs ++ after)) bank ≡ ok (held bank bs)
unfolding read_asset_shares_for_bank
read_asset_shares_for_bank-held header bs after bank at_header sixteen h =
    rw sixteen at (scan-balances_bytes header bs after bank 0 h (omega (arith, at_header)))
