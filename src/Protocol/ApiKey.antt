-- ===== src/Protocol/ApiKey.antt =====
-- internal/protocol/api_key.go: the APIs that the broker advertises, and their header versions.
-- Keys and versions are int16 bit patterns.
use distributed_messaging_sy.Common.{ℕ, List, [], ◌∷◌, ◌==◌, if◌then◌else◌, leb_i16}

abbrev pub api_key_produce : ℕ
api_key_produce = 0

abbrev pub api_key_fetch : ℕ
api_key_fetch = 1

abbrev pub api_key_list_offsets : ℕ
api_key_list_offsets = 2

abbrev pub api_key_metadata : ℕ
api_key_metadata = 3

abbrev pub api_key_offsets_for_leader_epoch : ℕ
api_key_offsets_for_leader_epoch = 23

abbrev pub api_key_api_versions : ℕ
api_key_api_versions = 18

abbrev pub err_code_unsupported_version : ℕ
err_code_unsupported_version = 35

pub record ApiVersion : Type 0 where
  pub key : ℕ
  pub min_version : ℕ
  pub max_version : ℕ

abbrev pub supported_api_versions : List ApiVersion
supported_api_versions =
    record { key = api_key_produce; min_version = 3; max_version = 8 }
    ∷ record { key = api_key_fetch; min_version = 4; max_version = 11 }
    ∷ record { key = api_key_list_offsets; min_version = 1; max_version = 5 }
    ∷ record { key = api_key_metadata; min_version = 0; max_version = 8 }
    ∷ record { key = api_key_offsets_for_leader_epoch; min_version = 2; max_version = 4 }
    ∷ record { key = api_key_api_versions; min_version = 0; max_version = 3 }
    ∷ []

-- RequestHeaderVersion
unfoldable pub request_header_version : ℕ → ℕ → ℕ
request_header_version key version =
    if key == api_key_api_versions
    then if leb_i16 3 version then 2 else 1
    else if key == api_key_produce
    then if leb_i16 9 version then 2 else 1
    else if key == api_key_fetch
    then if leb_i16 12 version then 2 else 1
    else if key == api_key_metadata
    then if leb_i16 9 version then 2 else 1
    else if key == api_key_offsets_for_leader_epoch
    then if leb_i16 4 version then 2 else 1
    else 1

-- ResponseHeaderVersion
unfoldable pub response_header_version : ℕ → ℕ → ℕ
response_header_version key version =
    if key == api_key_api_versions
    then 0
    else if key == api_key_produce
    then if leb_i16 9 version then 1 else 0
    else if key == api_key_fetch
    then if leb_i16 12 version then 1 else 0
    else if key == api_key_metadata
    then if leb_i16 9 version then 1 else 0
    else if key == api_key_offsets_for_leader_epoch
    then if leb_i16 4 version then 1 else 0
    else 0
