-- ===== src/Http/Cookie.antt =====
-- clueapi/http/types/cookie: a cookie and the value of its `Set-Cookie` header.
pub mod Laws
use clueapi.Base.{
  Bool, true, false, not, ◌&&◌, ◌||◌, ◌⊎◌, inl, inr, [], ◌∷◌, ◌++◌, if◌then◌else◌, ℤ, pos,
  is_positive,
}
use clueapi.Base.Bytes.{Bytes, codes, equal, is_empty, starts_with}

-- The fields of `cookie_t`; `max_age` counts seconds.
pub record Cookie : Type 0 where
  pub name : Bytes
  pub value : Bytes
  pub path : Bytes
  pub domain : Bytes
  pub secure : Bool
  pub http_only : Bool
  pub max_age : ℤ
  pub same_site : Bytes

-- `cookie_t(name, value)`: the defaults of the other fields.
abbrev pub make_cookie : Bytes → Bytes → Cookie
make_cookie name value = record {
  name = name;
  value = value;
  path = codes "/";
  domain = [];
  secure = false;
  http_only = false;
  max_age = pos 86400;
  same_site = codes "Lax";
}

-- `invalid_argument_t`, by its text.
pub data CookieError : Type 0 where
  needs_secure : CookieError
  needs_host_only : CookieError

-- Text that `format_to` adds under a condition.
unfoldable pub when : Bool → Bytes → Bytes
when b text = if b then text else []

-- `show` is `{}` of fmt for the seconds, `expires` the date that `{:%a, …}` gives for the moment so
-- many seconds from now.
module _ (show expires : ℤ → Bytes) where
  -- What is put into the buffer.
  pub header_text : Cookie → Bytes
  unfolding when
  header_text c =
      (c.name ++ (b'=' ∷ c.value))
      ++ (when (not (is_empty c.domain)) (codes "; Domain=" ++ c.domain)
          ++ (when (not (is_empty c.path)) (codes "; Path=" ++ c.path)
              ++ (when (is_positive c.max_age) (
                    (codes "; Max-Age=" ++ show c.max_age)
                    ++ (codes "; Expires=" ++ (expires c.max_age ++ codes " GMT")))
                  ++ (when c.secure (codes "; Secure")
                      ++ (when c.http_only (codes "; HttpOnly")
                          ++ when (not (is_empty c.same_site))
                              (codes "; SameSite=" ++ c.same_site))))))

  pub serialize : Cookie → CookieError ⊎ Bytes
  unfolding header_text
  serialize c =
      if not c.secure && starts_with c.name (codes "__Secure-")
      then inl needs_secure
      else if starts_with c.name (codes "__Host-")
          && (not c.secure || not (is_empty c.domain) || not (equal c.path (codes "/")))
      then inl needs_host_only
      else inr (header_text c)
