-- ===== src/Config/Vault.antt =====
-- ocivault/ocivault.go: the authentication mode of an OCI vault. Fetching a secret is a call of the
-- vendor's client.
use harry_performance_scrape.Prelude.{
  Bool, ◌||◌, List, [], ◌∷◌, map, if◌then◌else◌, ◌==◌, string_eq,
}
use harry_performance_scrape.Texts.{Text, text, text_eq, trim_space, to_lower}

pub data Provider : Type 0 where
  config_file instance_principal resource_principal workload_identity : Provider

-- normalizeAuthMode
unfoldable pub normalize_auth_mode : Text → Text
normalize_auth_mode mode =
    let lowered = map to_lower (trim_space mode) in
    if lowered == [] then text "config_file" else lowered

unfoldable pub accepted_auth_modes : List Text
accepted_auth_modes =
    text "config_file"
    ∷ text "instance_principal"
    ∷ text "resource_principal"
    ∷ text "workload_identity"
    ∷ []

-- ValidateAuthMode: whether the mode is accepted.
unfoldable pub validate_auth_mode : Text → Bool
unfolding normalize_auth_mode
validate_auth_mode mode =
    let m = normalize_auth_mode mode in
    m == text "config_file"
    || m == text "instance_principal"
    || m == text "resource_principal"
    || m == text "workload_identity"

-- configurationProviderForAuthMode, which the vendor's library then carries out.
unfoldable pub configuration_provider_for_auth_mode : Text → Provider
unfolding normalize_auth_mode
configuration_provider_for_auth_mode mode =
    let m = normalize_auth_mode mode in
    if m == text "config_file"
    then config_file
    else if m == text "instance_principal"
    then instance_principal
    else if m == text "resource_principal"
    then resource_principal
    else if m == text "workload_identity"
    then workload_identity
    else config_file
