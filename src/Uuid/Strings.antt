-- ===== src/Uuid/Strings.antt =====
-- RTUuidCompareStr and RTUuidCompare2Strs of generic/uuid-generic.c, on texts of RTUuidToStr.
use virtualbox_drv.Common.{◌≡◌, some, ap}
use virtualbox_drv.Uuid.{Uuid}
use virtualbox_drv.Uuid.Order.{compare_numbers, key, compare_values-key}
use virtualbox_drv.Uuid.RoundTrip.{IsRanged, from_string-to_text}
use virtualbox_drv.Uuid.Text.{to_text, text_at, uuid_compare_str, uuid_compare_2strs}

-- A UUID and the text of another, and the texts of both, compare as the UUIDs do.
pub uuid_compare_str-key :
    (u v : Uuid)
    → IsRanged u
    → IsRanged v
    → (uuid_compare_str (some u) (some (text_at (to_text v))) ≡ compare_numbers (key u) (key v))
      × (uuid_compare_2strs (some (text_at (to_text u))) (some (text_at (to_text v)))
          ≡ compare_numbers (key u) (key v))
unfolding uuid_compare_str uuid_compare_2strs
uuid_compare_str-key u v r q =
    let eu = ap (λ x. x.1) (from_string-to_text u r) in
    let ev = ap (λ x. x.1) (from_string-to_text v q) in
    (
      rw (ev, uuid_compare_str) (compare_values-key u v r q),
      rw (eu, ev, uuid_compare_2strs) (compare_values-key u v r q),
    )
