-- ===== src/Allowlist/Examples.antt =====
-- Capabilities at concrete inputs.
use amber_store.Prelude.{◌≡◌, refl, [], ◌∷◌, true, ◌||◌, ok, err, Bytes, bytes_eq}
use amber_store.Allowlist.{
  Entry, no_access, cap_read, cap_delegate, cap_wipe, cap_admin, grant_cap, parse_caps_from,
  parse_caps, allows, caps, is_named, parse_caps-caps, parse_caps-allows, unknown_capability,
}

abbrev reader : Entry
reader = record no_access { read = true; delegate = true }

reader_parsed : parse_caps (cap_read ∷ cap_delegate ∷ []) ≡ ok reader
unfolding parse_caps parse_caps_from grant_cap bytes_eq
reader_parsed = refl

unknown_refused : parse_caps (cap_read ∷ (114 ∷ []) ∷ []) ≡ err (unknown_capability (114 ∷ []))
unfolding parse_caps parse_caps_from grant_cap bytes_eq
unknown_refused = refl

parse_caps-caps_example :
    (e' : Entry) × (parse_caps (caps reader) ≡ ok e')
    × ((cap : Bytes) → allows e' cap ≡ allows reader cap)
    × (caps e' ≡ caps reader)
parse_caps-caps_example = parse_caps-caps reader

parse_caps-allows_example : allows reader cap_wipe ≡ (
    is_named cap_admin (cap_read ∷ cap_delegate ∷ [])
    || is_named cap_wipe (cap_read ∷ cap_delegate ∷ []))
parse_caps-allows_example =
    parse_caps-allows (cap_read ∷ cap_delegate ∷ []) reader cap_wipe reader_parsed
