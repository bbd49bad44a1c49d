-- ===== src/Http/Cookie/Laws.antt =====
-- clueapi/http/types/cookie: which cookies are serialized, and the attributes in the header.
use clueapi.Base.{
  ◌≡◌, ◌↔◌, refl, ap, ◌∙◌, sym, inr, Bool, true, false, not, List, [], ◌∷◌, ◌++◌, append-nil,
  append_assoc, map, arith, All, if◌then◌else◌, ℤ, is_positive,
}
use clueapi.Base.Bytes.{Bytes, codes, equal_iff, is_empty, starts_with, Lacks}
use clueapi.Shared.Extract.Laws.{parts, join_front}
use clueapi.Http.Cookie.{Cookie, when, header_text, serialize}

-- The rules for the two prefixes of names (RFC 6265bis).
abbrev pub IsAllowed : Cookie → Type 0
IsAllowed c =
    (starts_with c.name (codes "__Secure-") ≡ true → c.secure ≡ true)
    × (starts_with c.name (codes "__Host-") ≡ true
        → (c.secure ≡ true) × (c.domain ≡ []) × (c.path ≡ codes "/"))

-- A cookie is serialized exactly when the rules for the name prefixes allow it.
pub serialize_iff :
    (show expires : ℤ → Bytes) (c : Cookie)
    → (serialize show expires c ≡ inr (header_text show expires c)) ↔ IsAllowed c
unfolding serialize is_empty
serialize_iff show expires c = ground (arith, equal_iff c.path (codes "/"))

-- The attribute, if the cookie has it.
unfoldable pub attribute : Bool → Bytes → List Bytes
attribute b text = if b then text ∷ [] else []

-- The attributes of the cookie, as RFC 6265 lists them.
unfoldable pub attributes : (ℤ → Bytes) → (ℤ → Bytes) → Cookie → List Bytes
unfolding attribute
attributes show expires c =
    attribute (not (is_empty c.domain)) (codes "Domain=" ++ c.domain)
    ++ (attribute (not (is_empty c.path)) (codes "Path=" ++ c.path)
        ++ (attribute (is_positive c.max_age) (codes "Max-Age=" ++ show c.max_age)
            ++ (attribute (is_positive c.max_age)
                  (codes "Expires=" ++ (expires c.max_age ++ codes " GMT"))
                ++ (attribute c.secure (codes "Secure")
                    ++ (attribute c.http_only (codes "HttpOnly")
                        ++ attribute (not (is_empty c.same_site))
                            (codes "SameSite=" ++ c.same_site))))))

-- Each attribute behind its semicolon and blank.
unfoldable pub joined : List Bytes → Bytes
joined [] = []
joined (a ∷ xs) = b';' ∷ b' ' ∷ (a ++ joined xs)

joined-append : (xs ys : List Bytes) → joined (xs ++ ys) ≡ joined xs ++ joined ys
unfolding joined
joined-append [] ys = refl
joined-append (a ∷ xs) ys =
    ap (λ (r : Bytes). b';' ∷ b' ' ∷ r)
      (ap (◌++◌ a) (joined-append xs ys) ∙ sym (append_assoc a (joined xs) (joined ys)))

joined-attribute :
    (b : Bool) (text : Bytes) → joined (attribute b text) ≡ when b (b';' ∷ b' ' ∷ text)
unfolding joined attribute when
joined-attribute false text = refl
joined-attribute true text = ap (λ (r : Bytes). b';' ∷ b' ' ∷ r) (append-nil text)

parts-Lacks : (s : Bytes) → Lacks b';' s → parts s ≡ s ∷ []
unfolding parts join_front
parts-Lacks [] h = refl
parts-Lacks (c ∷ s) h = ground (arith, h.0, parts-Lacks s h.1)

parts-append : (s r : Bytes) → Lacks b';' s → parts (s ++ b';' ∷ r) ≡ s ∷ parts r
unfolding parts join_front
parts-append [] r h = refl
parts-append (c ∷ s) r h = ground (arith, h.0, parts-append s r h.1)

pub parts-joined :
    (s : Bytes) (xs : List Bytes)
    → Lacks b';' s
    → All (Lacks b';') xs
    → parts (s ++ joined xs) ≡ s ∷ map (◌∷◌ b' ') xs
unfolding joined
parts-joined s [] h k = rw (append-nil s) (parts-Lacks s h)
parts-joined s (a ∷ xs) h k =
    parts-append s (b' ' ∷ (a ++ joined xs)) h
    ∙ ap (◌∷◌ s) (parts-joined (b' ' ∷ a) xs (refl, k.0) k.1)

joined-step :
    (b : Bool) (text : Bytes) (xs : List Bytes) {r : Bytes}
    → r ≡ joined xs
    → when b (b';' ∷ b' ' ∷ text) ++ r ≡ joined (attribute b text ++ xs)
joined-step b text xs e = rw (joined-append (attribute b text) xs, joined-attribute b text, e) refl

joined-two_steps :
    (b : Bool) (s t : Bytes) (xs : List Bytes) {r : Bytes}
    → r ≡ joined xs
    → when b ((b';' ∷ b' ' ∷ s) ++ (b';' ∷ b' ' ∷ t)) ++ r
      ≡ joined (attribute b s ++ (attribute b t ++ xs))
unfolding when attribute joined
joined-two_steps false s t xs e = e
joined-two_steps true s t xs e = rw (append_assoc s (b';' ∷ b' ' ∷ t), e) refl

header_text-joined :
    (show expires : ℤ → Bytes) (c : Cookie)
    → header_text show expires c
      ≡ (c.name ++ (b'=' ∷ c.value)) ++ joined (attributes show expires c)
unfolding header_text attributes
header_text-joined show expires c = ap (◌++◌ (c.name ++ (b'=' ∷ c.value))) (
    joined-step (not (is_empty c.domain)) (codes "Domain=" ++ c.domain) _ (
      joined-step (not (is_empty c.path)) (codes "Path=" ++ c.path) _ (
        joined-two_steps (is_positive c.max_age) (codes "Max-Age=" ++ show c.max_age)
          (codes "Expires=" ++ (expires c.max_age ++ codes " GMT")) _
          (joined-step c.secure (codes "Secure") _ (
            joined-step c.http_only (codes "HttpOnly") _ (
              sym (
                joined-attribute (not (is_empty c.same_site))
                  (codes "SameSite=" ++ c.same_site))))))))

-- The parts between the semicolons of the header are the name with the value, and then each
-- attribute of the cookie behind a blank, if none of them has a semicolon of its own.
pub parts-header_text :
    (show expires : ℤ → Bytes) (c : Cookie)
    → Lacks b';' (c.name ++ (b'=' ∷ c.value))
    → All (Lacks b';') (attributes show expires c)
    → parts (header_text show expires c)
      ≡ (c.name ++ (b'=' ∷ c.value)) ∷ map (◌∷◌ b' ') (attributes show expires c)
parts-header_text show expires c h k =
    rw (header_text-joined show expires c)
      (parts-joined (c.name ++ (b'=' ∷ c.value)) (attributes show expires c) h k)
