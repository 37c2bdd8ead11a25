-- ===== src/Allowlist.antt =====
-- allowlist/allowlist.go: the capabilities of allowed keys. A string is its list of bytes. Reading one
-- line of authorized_keys is the work of a library: `parse_authorized_key` gives the key and its options.
mod Examples
use amber_store.Prelude.{
  ℕ, ◌+◌, ◌≡◌, refl, sym, ◌∙◌, ap, arith, Bool, true, false, ◌||◌, Option, none, some, List, [],
  ◌∷◌, ◌++◌, ◌==◌, if◌then◌else◌, length, Bytes, bytes_eq, bytes_eq_iff, bytes_eq_refl, Result, ok,
  err, ◌>>=◌, wrap, >>=-eq-ok,
}

-- Go's string constants: "read", "push-objects", "write-refs", "delegate", "wipe" and "admin".
abbrev pub cap_read : Bytes
cap_read = 114 ∷ 101 ∷ 97 ∷ 100 ∷ []

abbrev pub cap_push_objects : Bytes
cap_push_objects = 112 ∷ 117 ∷ 115 ∷ 104 ∷ 45 ∷ 111 ∷ 98 ∷ 106 ∷ 101 ∷ 99 ∷ 116 ∷ 115 ∷ []

abbrev pub cap_write_refs : Bytes
cap_write_refs = 119 ∷ 114 ∷ 105 ∷ 116 ∷ 101 ∷ 45 ∷ 114 ∷ 101 ∷ 102 ∷ 115 ∷ []

abbrev pub cap_delegate : Bytes
cap_delegate = 100 ∷ 101 ∷ 108 ∷ 101 ∷ 103 ∷ 97 ∷ 116 ∷ 101 ∷ []

abbrev pub cap_wipe : Bytes
cap_wipe = 119 ∷ 105 ∷ 112 ∷ 101 ∷ []

abbrev pub cap_admin : Bytes
cap_admin = 97 ∷ 100 ∷ 109 ∷ 105 ∷ 110 ∷ []

pub record Entry : Type 0 where
  pub read : Bool
  pub push_objects : Bool
  pub write_refs : Bool
  pub delegate : Bool
  pub wipe : Bool
  pub admin : Bool

abbrev pub no_access : Entry
no_access = record {
  read = false;
  push_objects = false;
  write_refs = false;
  delegate = false;
  wipe = false;
  admin = false;
}

abbrev pub full_access : Entry
full_access = record no_access { read = true; push_objects = true; write_refs = true }

pub data ListError : Type 0 where
  unknown_capability : Bytes → ListError
  unparsable_line : ℕ → ListError
  at_line : ℕ → ListError → ListError

-- The switch of `ParseCaps`.
unfoldable pub grant_cap : Entry → Bytes → Result ListError Entry
grant_cap e n =
    if bytes_eq n cap_read
    then ok (record e { read = true })
    else if bytes_eq n cap_push_objects
    then ok (record e { push_objects = true })
    else if bytes_eq n cap_write_refs
    then ok (record e { write_refs = true })
    else if bytes_eq n cap_delegate
    then ok (record e { delegate = true })
    else if bytes_eq n cap_wipe
    then ok (record e { wipe = true })
    else if bytes_eq n cap_admin
    then ok (record e { admin = true })
    else err (unknown_capability n)

unfoldable pub parse_caps_from : Entry → List Bytes → Result ListError Entry
parse_caps_from e [] = ok e
parse_caps_from e (n ∷ ns) = do e' ← grant_cap e n; parse_caps_from e' ns

unfoldable pub parse_caps : List Bytes → Result ListError Entry
unfolding parse_caps_from
parse_caps names = parse_caps_from no_access names

-- Entry.Allows
unfoldable pub allows : Entry → Bytes → Bool
allows e cap =
    if e.admin
    then true
    else if bytes_eq cap cap_read
    then e.read
    else if bytes_eq cap cap_push_objects
    then e.push_objects
    else if bytes_eq cap cap_write_refs
    then e.write_refs
    else if bytes_eq cap cap_delegate
    then e.delegate
    else if bytes_eq cap cap_wipe
    then e.wipe
    else false

unfoldable pub cap_if : Bool → Bytes → List Bytes
cap_if b cap = if b then cap ∷ [] else []

-- Entry.Caps
unfoldable pub caps : Entry → List Bytes
unfolding cap_if
caps e =
    if e.admin
    then cap_admin ∷ []
    else cap_if e.read cap_read
      ++ (cap_if e.push_objects cap_push_objects
          ++ (cap_if e.write_refs cap_write_refs
              ++ (cap_if e.delegate cap_delegate ++ cap_if e.wipe cap_wipe)))

-- A list of allowed keys: the map of its entries, the last occurrence of a key first.
abbrev pub AllowList : Type 0
AllowList = List (Bytes × Entry)

-- List.Lookup
unfoldable pub lookup_key : AllowList → Bytes → Option Entry
lookup_key [] pub_wire = none
lookup_key ((k, e) ∷ l) pub_wire = if bytes_eq k pub_wire then some e else lookup_key l pub_wire

module _ (trim_space : Bytes → Bytes)
    (parse_authorized_key : Bytes → Option (Bytes × List Bytes)) where
  unfoldable pub entry_of : List Bytes → Result ListError Entry
  entry_of options = if length options == 0 then ok full_access else parse_caps options

  unfoldable pub key_line : ℕ → AllowList → Option (Bytes × List Bytes) → Result ListError AllowList
  unfolding entry_of
  key_line line_no l none = err (unparsable_line line_no)
  key_line line_no l (some (key, options)) = do
    e ← wrap (at_line line_no) (entry_of options)
    ok ((key, e) ∷ l)

  -- A line that is blank or a comment ("#" is 35) is skipped.
  unfoldable pub add_line : ℕ → AllowList → Bytes → Result ListError AllowList
  unfolding key_line
  add_line line_no l [] = ok l
  add_line line_no l (c ∷ line) =
      if c == 35 then ok l else key_line line_no l (parse_authorized_key (c ∷ line))

  -- The loop of `Parse` over the lines of the buffer, of which `line_no` came before.
  unfoldable pub parse_lines : ℕ → AllowList → List Bytes → Result ListError AllowList
  unfolding add_line
  parse_lines line_no l [] = ok l
  parse_lines line_no l (raw ∷ lines) = do
    l' ← add_line (line_no + 1) l (trim_space raw)
    parse_lines (line_no + 1) l' lines

entry : Bool → Bool → Bool → Bool → Bool → Entry
entry r p w d i = record {
  read = r;
  push_objects = p;
  write_refs = w;
  delegate = d;
  wipe = i;
  admin = false;
}

parse_caps-caps_of : (r p w d i : Bool) → parse_caps (caps (entry r p w d i)) ≡ ok (entry r p w d i)
unfolding parse_caps parse_caps_from grant_cap caps cap_if bytes_eq entry
parse_caps-caps_of true true true true true = refl
parse_caps-caps_of true true true true false = refl
parse_caps-caps_of true true true false true = refl
parse_caps-caps_of true true true false false = refl
parse_caps-caps_of true true false true true = refl
parse_caps-caps_of true true false true false = refl
parse_caps-caps_of true true false false true = refl
parse_caps-caps_of true true false false false = refl
parse_caps-caps_of true false true true true = refl
parse_caps-caps_of true false true true false = refl
parse_caps-caps_of true false true false true = refl
parse_caps-caps_of true false true false false = refl
parse_caps-caps_of true false false true true = refl
parse_caps-caps_of true false false true false = refl
parse_caps-caps_of true false false false true = refl
parse_caps-caps_of true false false false false = refl
parse_caps-caps_of false true true true true = refl
parse_caps-caps_of false true true true false = refl
parse_caps-caps_of false true true false true = refl
parse_caps-caps_of false true true false false = refl
parse_caps-caps_of false true false true true = refl
parse_caps-caps_of false true false true false = refl
parse_caps-caps_of false true false false true = refl
parse_caps-caps_of false true false false false = refl
parse_caps-caps_of false false true true true = refl
parse_caps-caps_of false false true true false = refl
parse_caps-caps_of false false true false true = refl
parse_caps-caps_of false false true false false = refl
parse_caps-caps_of false false false true true = refl
parse_caps-caps_of false false false true false = refl
parse_caps-caps_of false false false false true = refl
parse_caps-caps_of false false false false false = refl

parse_caps-caps_admin :
    (e : Entry)
    → e.admin ≡ true
    → (parse_caps (caps e) ≡ ok (record no_access { admin = true }))
      × ((cap : Bytes) → allows (record no_access { admin = true }) cap ≡ allows e cap)
      × (caps (record no_access { admin = true }) ≡ caps e)
unfolding parse_caps parse_caps_from grant_cap caps cap_if allows bytes_eq
parse_caps-caps_admin e h = (rw h, λ cap. rw h, rw h)

-- Whatever capabilities an entry has, the names that `Caps` writes are parsed by `ParseCaps` as an
-- entry that allows the same, and that writes the same names.
pub parse_caps-caps :
    (e : Entry)
    → (e' : Entry) × (parse_caps (caps e) ≡ ok e')
      × ((cap : Bytes) → allows e' cap ≡ allows e cap)
      × (caps e' ≡ caps e)
unfolding entry
parse_caps-caps e = of_admin e e.admin refl
  where
    of_admin :
        (e : Entry) (b : Bool)
        → e.admin ≡ b
        → (e' : Entry) × (parse_caps (caps e) ≡ ok e')
          × ((cap : Bytes) → allows e' cap ≡ allows e cap)
          × (caps e' ≡ caps e)
    of_admin e true h =
        let (parsed, same, names) = parse_caps-caps_admin e h in
        (record no_access { admin = true }, parsed, same, names)
    of_admin e false h =
        let same : e ≡ entry e.read e.push_objects e.write_refs e.delegate e.wipe = cc h in
        (
          e,
          ap (λ t. parse_caps (caps t)) same
              ∙ parse_caps-caps_of e.read e.push_objects e.write_refs e.delegate e.wipe
              ∙ ap ok (sym same),
          λ cap. refl,
          refl,
        )

unfoldable pub is_named : Bytes → List Bytes → Bool
is_named n [] = false
is_named n (m ∷ ms) = bytes_eq m n || is_named n ms

grant_cap-allows :
    (e e' : Entry) (n cap : Bytes)
    → grant_cap e n ≡ ok e'
    → allows e' cap ≡ (allows e cap || (bytes_eq n cap_admin || bytes_eq n cap))
unfolding grant_cap allows
grant_cap-allows e e' n cap h = ground (
  arith,
  bytes_eq_iff n cap,
  bytes_eq_iff n cap_read,
  bytes_eq_iff n cap_push_objects,
  bytes_eq_iff n cap_write_refs,
  bytes_eq_iff n cap_delegate,
  bytes_eq_iff n cap_wipe,
  bytes_eq_iff n cap_admin,
  bytes_eq_iff cap cap_read,
  bytes_eq_iff cap cap_push_objects,
  bytes_eq_iff cap cap_write_refs,
  bytes_eq_iff cap cap_delegate,
  bytes_eq_iff cap cap_wipe,
)

parse_caps_from-allows :
    (names : List Bytes) (e e' : Entry) (cap : Bytes)
    → parse_caps_from e names ≡ ok e'
    → allows e' cap ≡ (allows e cap || (is_named cap_admin names || is_named cap names))
unfolding parse_caps_from is_named
parse_caps_from-allows [] e e' cap h = ground (arith, h)
parse_caps_from-allows (n ∷ ns) e e' cap h =
    let (e1, granted, rest) = >>=-eq-ok (grant_cap e n) (λ t. parse_caps_from t ns) h in
    ground (arith, grant_cap-allows e e1 n cap granted, parse_caps_from-allows ns e1 e' cap rest)

-- What `ParseCaps` accepts allows exactly the capabilities among the names given, and everything if
-- "admin" is among them.
pub parse_caps-allows :
    (names : List Bytes) (e : Entry) (cap : Bytes)
    → parse_caps names ≡ ok e
    → allows e cap ≡ (is_named cap_admin names || is_named cap names)
unfolding parse_caps allows
parse_caps-allows names e cap h = ground (arith, parse_caps_from-allows names no_access e cap h)
