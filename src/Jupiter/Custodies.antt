-- ===== src/Jupiter/Custodies.antt =====
-- The list of a pool's custodies as its data holds it, and the reading of the pool's assets
-- (programs/adapters/jupiter-lp/src/lib.rs, `read_pool_aum_with_custody`).
use sol_yield.Base.{
  ℕ, zero, suc, Bool, true, false, ◌+◌, ◌*◌, ◌^◌, ◌<◌, leb, ◌==◌, ◌||◌, if◌then◌else◌, ◌≡◌, refl,
  sym, ap, ◌∙◌, List, [], ◌∷◌, ◌++◌, length, length-append, All, arith,
}
use sol_yield.Base.Bytes.{to_le_bytes, length-to_le_bytes, from_le_bytes-to_le_bytes}
use sol_yield.Base.Layout.{read_bytes-at}
use sol_yield.Base.Result.{ok, err, custom}
use sol_yield.Solana.Account.{Pubkey, pubkey_bytes}
use sol_yield.Jupiter.Types.{
  invalid_pool, invalid_token_account, pool_discriminator, jupiter_perps_program_id,
}
use sol_yield.Jupiter.Pool.{read_pubkey, read_u32, read_u128, scan_keys, read_pool_aum_with_custody}
use mathlib.Core.List.{append_assoc}

abbrev pub IsKey : Pubkey → Type 0
IsKey key = key < 256 ^ 32

abbrev pub keys_bytes : List Pubkey → List ℕ
keys_bytes [] = []
keys_bytes (key ∷ keys) = pubkey_bytes key ++ keys_bytes keys

abbrev pub contains : Pubkey → List Pubkey → Bool
contains expected [] = false
contains expected (key ∷ keys) = key == expected || contains expected keys

module _ (before : List ℕ) (key : Pubkey) (after : List ℕ) (fits : IsKey key) where
  key_here :
      (offset : ℕ)
      → offset ≡ length before
      → read_pubkey (before ++ (pubkey_bytes key ++ after)) offset ≡ ok key
  unfolding read_pubkey
  key_here offset e =
      let word =
        read_bytes-at 32 invalid_token_account (before ++ (pubkey_bytes key ++ after)) before
          (pubkey_bytes key) after offset refl e (sym (length-to_le_bytes 32 key)) in
      rw word (ap ok (from_le_bytes-to_le_bytes 32 key fits))

  scan_round :
      (expected : Pubkey) (rounds : ℕ) (found : Bool)
      → length before + 32 < 2 ^ 64
      → scan_keys
          (before ++ (pubkey_bytes key ++ after))
          expected
          (suc rounds)
          (length before)
          found
        ≡ scan_keys
            (before ++ (pubkey_bytes key ++ after))
            expected
            rounds
            (length before + 32)
            (key == expected || found)
  unfolding scan_keys
  scan_round expected rounds found small = let here = key_here (length before) refl in ground arith

found_later : (a b found : Bool) → (b || (a || found)) ≡ ((a || b) || found)
found_later true true found = refl
found_later true false found = refl
found_later false true found = refl
found_later false false found = refl

scan_none :
    (bytes : List ℕ) (expected : Pubkey) (offset : ℕ) (found : Bool)
    → scan_keys bytes expected zero offset found ≡ ok (found, offset)
unfolding scan_keys
scan_none bytes expected offset found = refl

-- The scan of a list of keys finds a key exactly when the list has it, and ends behind the list.
scan-keys_bytes :
    (before : List ℕ) (keys : List Pubkey) (after : List ℕ) (expected : Pubkey) (found : Bool)
    → All IsKey keys
    → length before + 32 * length keys < 2 ^ 64
    → scan_keys (before ++ (keys_bytes keys ++ after)) expected (length keys) (length before) found
      ≡ ok (contains expected keys || found, length before + 32 * length keys)
scan-keys_bytes before [] after expected found h small =
    let none : length before + 32 * 0 ≡ length before = omega arith in
    rw none (scan_none (before ++ after) expected (length before) found)
scan-keys_bytes before (key ∷ keys) after expected found h small =
    let rest = keys_bytes keys ++ after in
    let here = before ++ (pubkey_bytes key ++ rest) in
    let same : before ++ ((pubkey_bytes key ++ keys_bytes keys) ++ after) ≡ here =
      simp append_assoc in
    let wide : length (before ++ pubkey_bytes key) ≡ length before + 32 =
      omega (arith, length-append before (pubkey_bytes key), length-to_le_bytes 32 key) in
    let further =
      scan-keys_bytes (before ++ pubkey_bytes key) keys after expected (key == expected || found)
        h.1 (omega (arith, wide, small)) in
    let further' = rw (append_assoc before (pubkey_bytes key) rest, wide) at further in
    let end : length before + 32 + 32 * length keys ≡ length before + 32 * suc (length keys) =
      omega arith in
    rw same (
      scan_round before key rest h.0 expected (length keys) found (omega (arith, small))
      ∙ (further' ∙ rw (found_later (key == expected) (contains expected keys) found, end) refl))

length-keys_bytes : (keys : List Pubkey) → length (keys_bytes keys) ≡ 32 * length keys
length-keys_bytes [] = refl
length-keys_bytes (key ∷ keys) = omega (
  arith,
  length-append (pubkey_bytes key) (keys_bytes keys),
  length-to_le_bytes 32 key,
  length-keys_bytes keys,
)

-- A word is read back where its place is known.
module _ (bytes before : List ℕ) (n : ℕ) (after : List ℕ) (offset : ℕ)
    (place : offset ≡ length before) where
  u32_at : n < 2 ^ 32 → bytes ≡ before ++ (to_le_bytes 4 n ++ after) → read_u32 bytes offset ≡ ok n
  unfolding read_u32
  u32_at fits e =
      let word =
        read_bytes-at 4 invalid_pool bytes before (to_le_bytes 4 n) after offset e place
          (sym (length-to_le_bytes 4 n)) in
      rw word (ap ok (from_le_bytes-to_le_bytes 4 n (omega (arith, fits))))

  u128_at :
      n < 2 ^ 128 → bytes ≡ before ++ (to_le_bytes 16 n ++ after) → read_u128 bytes offset ≡ ok n
  unfolding read_u128
  u128_at fits e =
      let word =
        read_bytes-at 16 invalid_pool bytes before (to_le_bytes 16 n) after offset e place
          (sym (length-to_le_bytes 16 n)) in
      rw word (ap ok (from_le_bytes-to_le_bytes 16 n (omega (arith, fits))))

-- The data of a pool: its mark, its name, the keys of its custodies, its assets, and what follows.
abbrev pub pool_bytes : List ℕ → List Pubkey → ℕ → List ℕ → List ℕ
pool_bytes name custodies aum rest =
    pool_discriminator
    ++ (to_le_bytes 4 (length name)
        ++ (name
            ++ (to_le_bytes 4 (length custodies)
                ++ (keys_bytes custodies ++ (to_le_bytes 16 aum ++ rest)))))

module _ (name : List ℕ) (custodies : List Pubkey) (aum : ℕ) (rest : List ℕ)
    (short : length name < 2 ^ 32) (few : length custodies < 2 ^ 32) (keys : All IsKey custodies)
    (fits : aum < 2 ^ 128) where
  abbrev bytes : List ℕ
  bytes = pool_bytes name custodies aum rest

  abbrev listed_from : List ℕ
  listed_from =
      pool_discriminator
      ++ (to_le_bytes 4 (length name) ++ (name ++ to_le_bytes 4 (length custodies)))

  length-listed_from : length listed_from ≡ 16 + length name
  length-listed_from = omega (
    arith,
    length-append (to_le_bytes 4 (length name)) (name ++ to_le_bytes 4 (length custodies)),
    length-append name (to_le_bytes 4 (length custodies)),
    length-to_le_bytes 4 (length name),
    length-to_le_bytes 4 (length custodies),
  )

  name_len_read : read_u32 bytes 8 ≡ ok (length name)
  name_len_read = u32_at bytes pool_discriminator (length name) _ 8 refl short refl

  custody_count_read : read_u32 bytes (12 + length name) ≡ ok (length custodies)
  custody_count_read =
      u32_at bytes (pool_discriminator ++ (to_le_bytes 4 (length name) ++ name)) (length custodies)
        (keys_bytes custodies ++ (to_le_bytes 16 aum ++ rest)) (12 + length name)
        (omega (
          arith,
          length-append (to_le_bytes 4 (length name)) name,
          length-to_le_bytes 4 (length name),
        ))
        few (simp append_assoc)

  custodies_scanned :
      (expected : Pubkey)
      → scan_keys bytes expected (length custodies) (16 + length name) false
        ≡ ok (contains expected custodies || false, 16 + length name + 32 * length custodies)
  custodies_scanned expected =
      let same : bytes ≡ listed_from ++ (keys_bytes custodies ++ (to_le_bytes 16 aum ++ rest)) =
        simp append_assoc in
      let scanned =
        scan-keys_bytes listed_from custodies (to_le_bytes 16 aum ++ rest) expected false keys
          (omega (arith, length-listed_from, short, few)) in
      rw same (rw length-listed_from at scanned)

  aum_read : read_u128 bytes (16 + length name + 32 * length custodies) ≡ ok aum
  aum_read =
      u128_at bytes (listed_from ++ keys_bytes custodies) aum rest
        (16 + length name + 32 * length custodies)
        (omega (
          arith,
          length-append listed_from (keys_bytes custodies),
          length-listed_from,
          length-keys_bytes custodies,
        ))
        fits (simp append_assoc)

  long_enough : leb 12 (length bytes) ≡ true
  long_enough =
      let words =
        name
        ++ (to_le_bytes 4 (length custodies)
            ++ (keys_bytes custodies ++ (to_le_bytes 16 aum ++ rest))) in
      ground (
        arith,
        length-append (to_le_bytes 4 (length name)) words,
        length-to_le_bytes 4 (length name),
      )

  -- From the data of a pool that the program owns, the reading gives the pool's assets where the
  -- expected custody is one of the pool's, and refuses the pool where it is not.
  pub read_pool_aum-pool_bytes :
      (expected : Pubkey)
      → read_pool_aum_with_custody jupiter_perps_program_id
          (pool_bytes name custodies aum rest)
          expected
        ≡ (if contains expected custodies then ok aum else err (custom invalid_pool))
  unfolding read_pool_aum_with_custody
  read_pool_aum-pool_bytes expected =
      ground (
        arith,
        long_enough,
        name_len_read,
        custody_count_read,
        custodies_scanned expected,
        aum_read,
      )
