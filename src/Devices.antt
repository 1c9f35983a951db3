-- ===== src/Devices.antt =====
-- The browsers that skip the second factor: apps/web/src/server/auth/trusted-devices.ts. Times are
-- milliseconds; `asDate` is applied before the hooks are called.
pub mod Laws
pub mod Clear
use semantius_idp.Prelude.{
  map, ◌∷◌, [], ℕ, ◌+◌, ◌*◌, Text, String, codes, text_eq, starts_with, is_empty, keep, leb, length,
  Bool, false, not, ◌&&◌, Option, none, some, or_option, or_else, if◌then◌else◌, List,
}

-- A row of `verification`
pub record Row : Type 0 where
  pub id : Text
  pub identifier : Text
  pub value : Text
  pub created_at : ℕ
  pub expires_at : ℕ

-- `TRUST_DEVICE_PREFIX`
abbrev pub trust_device_prefix : Text
trust_device_prefix = codes "trust-device-"

-- `isTrustedDeviceIdentifier`, for a string
unfoldable pub is_trusted_device_identifier : Text → Bool
is_trusted_device_identifier identifier = starts_with identifier trust_device_prefix

-- `TRUST_DEVICE_MAX_WINDOWS`
abbrev trust_device_max_windows : ℕ
trust_device_max_windows = 3

abbrev day_ms : ℕ
day_ms = 24 * 60 * 60 * 1000

-- `trustedDeviceCeilingMs`; the setting is no negative number.
unfoldable pub trusted_device_ceiling_ms : ℕ → ℕ
trusted_device_ceiling_ms trust_device_days = trust_device_days * trust_device_max_windows * day_ms

-- `capTrustedDeviceExpiry`
unfoldable pub cap_trusted_device_expiry : ℕ → ℕ → ℕ → ℕ
cap_trusted_device_expiry first_issued requested ceiling_ms =
    if leb requested (first_issued + ceiling_ms) then requested else first_issued + ceiling_ms

-- What a hook is given of a row; a date is missing where `asDate` finds none.
pub record Entity : Type 0 where
  pub identifier : Text
  pub created_at : Option ℕ
  pub expires_at : Option ℕ

-- `delete.before`: what `FIRST_ISSUED` holds for the request's context afterwards
unfoldable pub delete_before : Entity → Option ℕ → Option ℕ
delete_before verification stashed =
    if not (is_trusted_device_identifier verification.identifier)
    then stashed
    else or_option verification.created_at stashed

-- `create.before`: the two dates that are written, `none` where the hook changes nothing. Without a
-- context nothing is stashed.
unfoldable pub create_before : ℕ → ℕ → Option ℕ → Entity → Option (ℕ × ℕ)
create_before ceiling_ms now stashed verification =
    if not (is_trusted_device_identifier verification.identifier)
    then none
    else let first_issued = or_else (or_option stashed verification.created_at) now in
      some (
        first_issued,
        cap_trusted_device_expiry first_issued (or_else verification.expires_at now) ceiling_ms,
      )

-- `trustedDevicesOf`
unfoldable pub trusted_devices_of : Text → Row → Bool
trusted_devices_of user_id row =
    text_eq row.value user_id && starts_with row.identifier trust_device_prefix

-- `clearTrustedDevices`: the table and the count
unfoldable pub clear_trusted_devices : Text → List Row → List Row × ℕ
clear_trusted_devices user_id rows = (
  keep (λ row. not (trusted_devices_of user_id row)) rows,
  length (keep (trusted_devices_of user_id) rows),
)

-- `clearTrustedDevice`: the table, and whether a row was deleted
unfoldable pub clear_trusted_device : Text → Text → List Row → List Row × Bool
clear_trusted_device user_id id rows = if is_empty id then (rows, false) else (
  keep (λ row. not (text_eq row.id id && trusted_devices_of user_id row)) rows,
  not (is_empty (keep (λ row. text_eq row.id id && trusted_devices_of user_id row) rows)),
)

-- `TrustedDevice`
pub record TrustedDevice : Type 0 where
  pub id : Text
  pub created_at : ℕ
  pub expires_at : ℕ

unfoldable pub insert_device : TrustedDevice → List TrustedDevice → List TrustedDevice
insert_device d [] = d ∷ []
insert_device d (e ∷ es) =
    if leb e.created_at d.created_at then d ∷ e ∷ es else e ∷ insert_device d es

-- `orderBy(desc(createdAt))`; rows of one time stay in the table's order.
unfoldable pub sort_devices : List TrustedDevice → List TrustedDevice
unfolding insert_device
sort_devices [] = []
sort_devices (d ∷ ds) = insert_device d (sort_devices ds)

-- `listTrustedDevices`
unfoldable pub list_trusted_devices : Text → List Row → List TrustedDevice
unfolding sort_devices
list_trusted_devices user_id rows = sort_devices (
    map (λ row. record { id = row.id; created_at = row.created_at; expires_at = row.expires_at })
      (keep (trusted_devices_of user_id) rows))
