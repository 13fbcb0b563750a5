-- ===== src/Handshake/Headers.antt =====
-- The headers of the CONNECT frame.
use iridium_stomp.Base.{
  false, not, List, [], ◌∷◌, ◌++◌, ◌≡◌, refl, ap, ◌∙◌, sym, inl, inr, Option, none, some, arith,
  append_assoc, append-nil, if◌then◌else◌, retain, map, All, Bool-cases,
}
use iridium_stomp.Base.Text.Ascii.{lowercase_is}
use iridium_stomp.Base.Text.Utf8.{Bytes, codes}
use iridium_stomp.Frame.{Frame, Header, header}
use iridium_stomp.Handshake.{reserved, is_reserved, add_custom, build_connect_frame}

-- The values of all headers of a name, in any case.
abbrev pub values : Bytes → List Header → List Bytes
values name [] = []
values name ((k, v) ∷ hs) = if lowercase_is k name then v ∷ values name hs else values name hs

values-append :
    (name : Bytes) (hs ks : List Header) → values name (hs ++ ks) ≡ values name hs ++ values name ks
values-append name [] ks = refl
values-append name ((k, v) ∷ hs) ks = ground (arith, values-append name hs ks)

-- The custom headers that are no reserved ones.
abbrev pub unreserved : List Header → List Header
unreserved hs = retain (λ h. not (is_reserved h.0)) hs

add_custom-headers :
    (hs : List Header) (f : Frame) → (add_custom hs f).headers ≡ f.headers ++ unreserved hs
unfolding add_custom
add_custom-headers [] f = sym (append-nil f.headers)
add_custom-headers ((k, v) ∷ hs) f = elim (Bool-cases (is_reserved k)) [
  | inl r ↦ rw (r, add_custom) (add_custom-headers hs f)
  | inr r ↦
      rw (r, add_custom)
        (add_custom-headers hs (header f k v)
          ∙ append_assoc f.headers ((k, v) ∷ []) (unreserved hs))
]

values-unreserved :
    (name : Bytes) (hs : List Header)
    → ((k : Bytes) → is_reserved k ≡ false → lowercase_is k name ≡ false)
    → values name (unreserved hs) ≡ []
values-unreserved name [] h = refl
values-unreserved name ((k, v) ∷ hs) h = elim (Bool-cases (is_reserved k)) [
  | inl r ↦ rw r (values-unreserved name hs h)
  | inr r ↦ rw (r, h k r) (values-unreserved name hs h)
]

abbrev pub given : Option Bytes → List Bytes
given none = []
given (some v) = v ∷ []

-- The headers of the frame before the custom ones.
abbrev fixed : Bytes → Bytes → Bytes → Bytes → Bytes → Option Bytes → List Header
fixed av host login passcode hb client_id =
    (codes "accept-version", av)
    ∷ (codes "host", host)
    ∷ (codes "login", login)
    ∷ (codes "passcode", passcode)
    ∷ (codes "heart-beat", hb)
    ∷ map (λ id. (codes "client-id", id)) (given client_id)

build_connect_frame-fixed :
    (av host login passcode hb : Bytes) (client_id : Option Bytes) (custom : List Header)
    → (build_connect_frame av host login passcode hb client_id custom).headers
      ≡ fixed av host login passcode hb client_id ++ unreserved custom
unfolding build_connect_frame
build_connect_frame-fixed av host login passcode hb none custom = add_custom-headers custom _
build_connect_frame-fixed av host login passcode hb (some id) custom = add_custom-headers custom _

not_reserved :
    (k : Bytes) → is_reserved k ≡ false → All (λ name. lowercase_is k name ≡ false) reserved
unfolding is_reserved
not_reserved k h = ground arith

values-fixed :
    (av host login passcode hb : Bytes) (client_id : Option Bytes)
    → let hs = fixed av host login passcode hb client_id in
      (values (codes "accept-version") hs ≡ av ∷ [])
      × (values (codes "host") hs ≡ host ∷ [])
      × (values (codes "login") hs ≡ login ∷ [])
      × (values (codes "passcode") hs ≡ passcode ∷ [])
      × (values (codes "heart-beat") hs ≡ hb ∷ [])
      × (values (codes "client-id") hs ≡ given client_id)
unfolding lowercase_is
values-fixed av host login passcode hb none = (refl, refl, refl, refl, refl, refl)
values-fixed av host login passcode hb (some id) = (refl, refl, refl, refl, refl, refl)

module _ (av host login passcode hb : Bytes) (client_id : Option Bytes) (custom : List Header) where
  abbrev pub built : List Header
  built = (build_connect_frame av host login passcode hb client_id custom).headers

  values-built :
      (name : Bytes)
      → ((k : Bytes) → is_reserved k ≡ false → lowercase_is k name ≡ false)
      → values name built ≡ values name (fixed av host login passcode hb client_id)
  values-built name h =
      ap (values name) (build_connect_frame-fixed av host login passcode hb client_id custom)
      ∙ values-append name (fixed av host login passcode hb client_id) (unreserved custom)
      ∙ ap (λ vs. values name (fixed av host login passcode hb client_id) ++ vs)
          (values-unreserved name custom h)
      ∙ append-nil _

  -- Whatever custom headers the application sets, the CONNECT frame has each reserved header once,
  -- under its name in any case, with the value that the connection was asked for; `client-id` is
  -- there only if one was given.
  pub build_connect_frame-reserved :
      (values (codes "accept-version") built ≡ av ∷ [])
      × (values (codes "host") built ≡ host ∷ [])
      × (values (codes "login") built ≡ login ∷ [])
      × (values (codes "passcode") built ≡ passcode ∷ [])
      × (values (codes "heart-beat") built ≡ hb ∷ [])
      × (values (codes "client-id") built ≡ given client_id)
  unfolding lowercase_is
  build_connect_frame-reserved = (
    values-built (codes "accept-version") (λ k r. (not_reserved k r).0)
        ∙ (values-fixed av host login passcode hb client_id).0,
    values-built (codes "host") (λ k r. (not_reserved k r).1.0)
        ∙ (values-fixed av host login passcode hb client_id).1,
    values-built (codes "login") (λ k r. (not_reserved k r).1.1.0)
        ∙ (values-fixed av host login passcode hb client_id).2,
    values-built (codes "passcode") (λ k r. (not_reserved k r).1.1.1.0)
        ∙ (values-fixed av host login passcode hb client_id).3,
    values-built (codes "heart-beat") (λ k r. (not_reserved k r).1.1.1.1.0)
        ∙ (values-fixed av host login passcode hb client_id).4,
    values-built (codes "client-id") (λ k r. (not_reserved k r).1.1.1.1.1.0)
        ∙ (values-fixed av host login passcode hb client_id).5,
  )
