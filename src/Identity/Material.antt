-- ===== src/Identity/Material.antt =====
-- Parse (internal/transport/identity/material.go): the loop over the CA bundle and the checks around
-- it. PEM, X.509 and SHA-256 are Go's: the blocks that pem.Decode yields, the two parsers and the
-- digests are parameters.
use mathlib.Core.Option.{some-injective}
use text.Mathlib.Text.{◌==◌}
use text.Mathlib.TextEquality.{eq_iff}
use anvilkit_agent_api.Base.{
  ℕ, ◌≤◌, String, ◌≡◌, refl, sym, ap, ◌∙◌, ◌≢◌, ◌↔◌, inl, inr, Bool, true, false, ◌||◌, Option,
  none, some, List, [], ◌∷◌, ltb, arith, if◌then◌else◌, Bool-cases, Option-cases,
}

-- pem.Block: its type and its bytes.
pub record Block (B : Type 0) : Type 0 where
  pub kind : String
  pub bytes : B

-- An X.509 certificate, as far as the code reads it: `fingerprint` is the digest of its bytes.
pub record Certificate : Type 0 where
  pub fingerprint : String
  pub is_ca : Bool
  pub not_before : ℕ
  pub not_after : ℕ

-- `digest` covers the three files.
pub record Material : Type 0 where
  pub leaf : Certificate
  pub roots : List String
  pub digest : String

pub data MaterialError : Type 0 where
  key_pair leaf_malformed leaf_outside_validity ca_malformed not_a_ca no_ca : MaterialError

pub data Parsed (A : Type 0) : Type 0 where
  failed : MaterialError → Parsed A
  loaded : A → Parsed A

module _ {B : Type 0} (certificate : B → Option Certificate) where
  -- The fingerprint joins the roots that the rest of the loop adds.
  abbrev and_root : String → Parsed (List String) → Parsed (List String)
  and_root f (failed e) = failed e
  and_root f (loaded roots) = loaded (f ∷ roots)

  abbrev one_ca : Option Certificate → Parsed (List String) → Parsed (List String)
  one_ca none rest = failed ca_malformed
  one_ca (some ca) rest = if ca.is_ca then and_root ca.fingerprint rest else failed not_a_ca

  -- The loop over the blocks of the bundle.
  unfoldable pub bundle : List (Block B) → Parsed (List String)
  bundle [] = loaded []
  bundle (b ∷ rest) =
      let later = bundle rest in
      if b.kind == "CERTIFICATE" then one_ca (certificate b.bytes) later else later

  abbrev complete : Certificate → String → Parsed (List String) → Parsed Material
  complete leaf digest (failed e) = failed e
  complete leaf digest (loaded []) = failed no_ca
  complete leaf digest (loaded (r ∷ roots)) =
      loaded (record { leaf = leaf; roots = r ∷ roots; digest = digest })

  -- `pair` is the leaf's bytes where the key matches the certificate.
  unfoldable pub parse : Option B → List (Block B) → String → ℕ → Parsed Material
  parse none blocks digest now = failed key_pair
  parse (some chain) blocks digest now = elim (certificate chain) [
    | none ↦ failed leaf_malformed
    | some leaf ↦
        if ltb now leaf.not_before || ltb leaf.not_after now
        then failed leaf_outside_validity
        else complete leaf digest (bundle blocks)
  ]

  -- The bundle's certificates are all CAs, and `roots` are their fingerprints in order.
  pub data Bundle : List (Block B) → List String → Type 0 where
    ended : Bundle [] []
    passed :
        {b : Block B} {rest : List (Block B)} {roots : List String}
        → b.kind ≢ "CERTIFICATE"
        → Bundle rest roots
        → Bundle (b ∷ rest) roots
    added :
        {b : Block B} {rest : List (Block B)} {roots : List String} (ca : Certificate)
        → b.kind ≡ "CERTIFICATE"
        → certificate b.bytes ≡ some ca
        → ca.is_ca ≡ true
        → Bundle rest roots
        → Bundle (b ∷ rest) (ca.fingerprint ∷ roots)

  Bundle-bundle :
      {blocks : List (Block B)} {roots : List String}
      → Bundle blocks roots
      → bundle blocks ≡ loaded roots
  unfolding bundle
  Bundle-bundle ended = refl
  Bundle-bundle (passed {b} {rest} {roots} other v) =
      ground (arith, Bundle-bundle v, other, eq_iff b.kind "CERTIFICATE")
  Bundle-bundle (added {b} {rest} {roots} ca kind found is v) =
      rw (kind, found, is, Bundle-bundle v, bundle) refl

  loaded_rest :
      (ca : Certificate) (later : Parsed (List String)) (roots : List String)
      → one_ca (some ca) later ≡ loaded roots
      → (tail : List String) × (later ≡ loaded tail)
        × (ca.is_ca ≡ true)
        × (roots ≡ ca.fingerprint ∷ tail)
  loaded_rest ca (failed e) roots h = ground (arith, h)
  loaded_rest ca (loaded tail) roots h = (tail, refl, ground (arith, h), ground (arith, h))

  bundle-Bundle :
      (blocks : List (Block B)) (roots : List String)
      → bundle blocks ≡ loaded roots
      → Bundle blocks roots
  unfolding bundle
  bundle-Bundle [] roots h = let e : roots ≡ [] = ground (arith, h) in rw e ended
  bundle-Bundle (b ∷ rest) roots h = elim (Bool-cases (b.kind == "CERTIFICATE")) [
    | inl kind ↦ elim (Option-cases (certificate b.bytes)) [
      | inl bad ↦ let stop : failed ca_malformed ≡ loaded roots = rw (kind, bad, bundle) at h in cc
      | inr (ca, found) ↦
          let (tail, read, is, e) =
            loaded_rest ca (bundle rest) roots (rw (kind, found, bundle) at h) in
          rw e (
            added ca (ground (arith, kind, eq_iff b.kind "CERTIFICATE")) found is
              (bundle-Bundle rest tail read))
    ]
    | inr kind ↦
        passed (ground (arith, kind, eq_iff b.kind "CERTIFICATE"))
          (bundle-Bundle rest roots (rw (kind, bundle) at h))
  ]

  pub record IsParsed (pair : Option B) (blocks : List (Block B)) (digest : String) (now : ℕ)
      (m : Material) : Type 0 where
    pub chain : B
    pub key_matches : pair ≡ some chain
    pub leaf_read : certificate chain ≡ some m.leaf
    pub begun : m.leaf.not_before ≤ now
    pub unexpired : now ≤ m.leaf.not_after
    pub authorities : Bundle blocks m.roots
    pub some_root : m.roots ≢ []
    pub exact_digest : m.digest ≡ digest

  complete-loaded :
      (leaf : Certificate) (digest : String) (r : Parsed (List String)) (m : Material)
      → complete leaf digest r ≡ loaded m
      → (r ≡ loaded m.roots) × (m.roots ≢ []) × (m.leaf ≡ leaf) × (m.digest ≡ digest)
  complete-loaded leaf digest (failed e) m h = absurd (ground (arith, h))
  complete-loaded leaf digest (loaded []) m h = absurd (ground (arith, h))
  complete-loaded leaf digest (loaded (r ∷ roots)) m h = (
    ground (arith, h),
    λ none_left. ground (arith, h, none_left),
    ground (arith, h),
    ground (arith, h),
  )

  complete_of_roots :
      (leaf : Certificate) (digest : String) (roots : List String)
      → roots ≢ []
      → complete leaf digest (loaded roots)
        ≡ loaded (record { leaf = leaf; roots = roots; digest = digest })
  complete_of_roots leaf digest [] h = absurd (h refl)
  complete_of_roots leaf digest (r ∷ roots) h = refl

  -- Parse gives a material exactly where the key matches the certificate, the leaf parses and is
  -- within its validity, and the bundle holds CA certificates alone, at least one: the material has
  -- this leaf and digest, and as its roots the fingerprints of the bundle's certificates.
  pub parse_iff :
      (pair : Option B) (blocks : List (Block B)) (digest : String) (now : ℕ) (m : Material)
      → (parse pair blocks digest now ≡ loaded m) ↔ IsParsed pair blocks digest now m
  unfolding parse
  parse_iff none blocks digest now m =
      (λ h. absurd (ground (arith, h)), λ v. absurd (ground (arith, v.key_matches)))
  parse_iff (some chain) blocks digest now m = (
    λ h. elim (Option-cases (certificate chain)) [
      | inl bad ↦ let stop : failed leaf_malformed ≡ loaded m = rw (bad, parse) at h in cc
      | inr (leaf, read) ↦ elim (Bool-cases (ltb now leaf.not_before || ltb leaf.not_after now)) [
        | inl late ↦
            let stop : failed leaf_outside_validity ≡ loaded m = rw (read, late, parse) at h in cc
        | inr valid ↦
            let (authorities, some_root, e, d) =
              complete-loaded leaf digest (bundle blocks) m (rw (read, valid, parse) at h) in
            record {
              chain = chain;
              key_matches = refl;
              leaf_read = rw e read;
              begun = rw e (ground (arith, valid));
              unexpired = rw e (ground (arith, valid));
              authorities = bundle-Bundle blocks m.roots authorities;
              some_root = some_root;
              exact_digest = d;
            }
      ]
    ],
    λ v.
        let read : certificate chain ≡ some m.leaf =
          ap certificate (some-injective chain v.chain v.key_matches) ∙ v.leaf_read in
        let valid : (ltb now m.leaf.not_before || ltb m.leaf.not_after now) ≡ false =
          ground (arith, v.begun, v.unexpired) in
        rw (read, valid, Bundle-bundle v.authorities, parse)
          (complete_of_roots m.leaf digest m.roots v.some_root
            ∙ ap (λ (d : String). loaded (record m { digest = d })) (sym v.exact_digest)),
  )
