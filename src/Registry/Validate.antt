-- ===== src/Registry/Validate.antt =====
-- The checks on the arguments of a proposal (programs/registry/src/lib.rs, `validate_*`).
use sol_yield.Base.{ℕ, ◌≤◌, ◌≡◌, ◌≢◌, ◌↔◌, false, not, ◌==◌, leb, arith, length}
use sol_yield.Base.Result.{Result, ok, require, ◌>>◌}
use sol_yield.Base.Text.{Text, trim, is_empty, is_blank, as_bytes, is_empty-trim}
use sol_yield.Solana.Account.{Pubkey, default_pubkey}
use sol_yield.Registry.Types.{
  RegistryError, max_protocol_name_len, max_metadata_uri_len, empty_protocol_name,
  protocol_name_too_long, empty_metadata_uri, metadata_uri_too_long, invalid_adapter_program_id,
  invalid_supported_mint,
}

unfoldable pub validate_protocol_name : Text → Result RegistryError (Unit {0})
validate_protocol_name protocol_name = do
  require (not (is_empty (trim protocol_name))) empty_protocol_name
  require (leb (length (as_bytes protocol_name)) max_protocol_name_len) protocol_name_too_long
  ok tt

unfoldable pub validate_metadata_uri : Text → Result RegistryError (Unit {0})
validate_metadata_uri metadata_uri = do
  require (not (is_empty (trim metadata_uri))) empty_metadata_uri
  require (leb (length (as_bytes metadata_uri)) max_metadata_uri_len) metadata_uri_too_long
  ok tt

unfoldable pub validate_adapter_inputs :
    Pubkey → Text → Pubkey → Text → Result RegistryError (Unit {0})
unfolding validate_protocol_name validate_metadata_uri
validate_adapter_inputs adapter_program_id protocol_name supported_mint metadata_uri = do
  require (not (adapter_program_id == default_pubkey)) invalid_adapter_program_id
  validate_protocol_name protocol_name
  require (not (supported_mint == default_pubkey)) invalid_supported_mint
  validate_metadata_uri metadata_uri
  ok tt

-- What a text that is stored satisfies: some character is no white space, and its bytes fit.
pub record FitsText (limit : ℕ) (s : Text) : Type 0 where
  pub not_blank : is_blank s ≡ false
  pub fits : length (as_bytes s) ≤ limit

-- What the arguments of an accepted proposal satisfy.
pub record AcceptableInputs (adapter_program_id : Pubkey) (protocol_name : Text)
    (supported_mint : Pubkey) (metadata_uri : Text) : Type 0 where
  pub program_known : adapter_program_id ≢ default_pubkey
  pub name_fits : FitsText max_protocol_name_len protocol_name
  pub mint_known : supported_mint ≢ default_pubkey
  pub uri_fits : FitsText max_metadata_uri_len metadata_uri

-- A metadata URI passes exactly when it is not blank and its bytes fit.
pub validate_metadata_uri_iff :
    (uri : Text) → (validate_metadata_uri uri ≡ ok tt) ↔ FitsText max_metadata_uri_len uri
unfolding validate_metadata_uri
validate_metadata_uri_iff uri =
    (λ h. ground (arith, is_empty-trim uri), λ h. ground (arith, is_empty-trim uri))

pub validate_protocol_name_iff :
    (name : Text) → (validate_protocol_name name ≡ ok tt) ↔ FitsText max_protocol_name_len name
unfolding validate_protocol_name
validate_protocol_name_iff name =
    (λ h. ground (arith, is_empty-trim name), λ h. ground (arith, is_empty-trim name))

-- The arguments of a proposal are accepted exactly when the program and the mint are not the
-- default key, and both texts are not blank and fit their limits.
pub validate_adapter_inputs_iff :
    (program : Pubkey) (name : Text) (mint : Pubkey) (uri : Text)
    → (validate_adapter_inputs program name mint uri ≡ ok tt)
      ↔ AcceptableInputs program name mint uri
unfolding validate_adapter_inputs
validate_adapter_inputs_iff program name mint uri = (
  λ h. ground (arith, is_empty-trim name, is_empty-trim uri),
  λ h. ground (arith, is_empty-trim name, is_empty-trim uri),
)
