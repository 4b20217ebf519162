-- ===== src/Create/Body/Links.antt =====
-- What `processBody` of selenoid.go adds to the capabilities of a new session.
use selenoid.Base.{◌≡◌, refl, ap, sym, ◌∙◌, false, Option, none, some, Text, text_eq, codes}
use mathlib.Core.Path.{subst}
use selenoid.Json.{Json, Fields, null, bool, num, str, arr, obj, JsonCodec, ReadsBack}
use selenoid.Capabilities.{Result, ok, err, panic}
use selenoid.Create.Body.{
  get_field, set_field, link, set_version, with_links, with_url, socket_url, capabilities_of,
  put_back, process_capabilities, process_value, process_w3c, process_fields, marshalled,
  process_parsed, process_body,
}
use selenoid.Create.Body.FieldLaws.{get_field-set_field_self, get_field-set_field_other}

-- The links that a client of a session finds.
pub record Linked (host sid : Text) (c : Fields) : Type 0 where
  pub cdp : get_field (codes "se:cdp") c ≡ some (link (codes "/devtools/") host sid)
  pub wsdriver : get_field (codes "se:wsdriver") c ≡ some (link (codes "/wsdriver/") host sid)
  pub version : get_field (codes "se:wsdriverVersion") c ≡ some (str (codes "1"))

-- A change of a field that is none of the links.
set-Linked :
    (host sid k : Text) (v : Json) (c : Fields)
    → text_eq k (codes "se:cdp") ≡ false
    → text_eq k (codes "se:wsdriver") ≡ false
    → text_eq k (codes "se:wsdriverVersion") ≡ false
    → Linked host sid c
    → Linked host sid (set_field k v c)
set-Linked host sid k v c a b d h = record {
  cdp = get_field-set_field_other k _ v c a ∙ h.cdp;
  wsdriver = get_field-set_field_other k _ v c b ∙ h.wsdriver;
  version = get_field-set_field_other k _ v c d ∙ h.version;
}

version-Linked :
    (host sid : Text) (o : Option Json) (c : Fields)
    → Linked host sid c
    → Linked host sid (set_version o c)
unfolding set_version text_eq
version-Linked host sid none c h = h
version-Linked host sid (some null) c h = h
version-Linked host sid (some (bool b)) c h = h
version-Linked host sid (some (num n)) c h = h
version-Linked host sid (some (arr js)) c h = h
version-Linked host sid (some (obj fs)) c h = h
version-Linked host sid (some (str bv)) c h =
    set-Linked host sid (codes "se:cdpVersion") (str bv) c refl refl refl h

with_links-Linked : (host sid : Text) (c : Fields) → Linked host sid (with_links host sid c)
unfolding with_links text_eq
with_links-Linked host sid c = version-Linked host sid _ _ (record {
  cdp =
      get_field-set_field_other (codes "se:wsdriverVersion") (codes "se:cdp") _ _ refl
      ∙ get_field-set_field_other (codes "se:wsdriver") (codes "se:cdp") _ _ refl
      ∙ get_field-set_field_self (codes "se:cdp") _ c;
  wsdriver =
      get_field-set_field_other (codes "se:wsdriverVersion") (codes "se:wsdriver") _ _ refl
      ∙ get_field-set_field_self (codes "se:wsdriver") _ _;
  version = get_field-set_field_self (codes "se:wsdriverVersion") _ _;
})

-- A result, if it is a value, has the property.
Holds : (Fields → Type 0) → Result Fields → Type 0
Holds P (ok c) = P c
Holds P (err e) = Unit {0}
Holds P panic = Unit {0}

url-Linked :
    (host sid : Text) (u : Option Text) (c : Fields)
    → Linked host sid c
    → Holds (Linked host sid) (with_url u c)
unfolding with_url Holds text_eq
url-Linked host sid none c h = tt
url-Linked host sid (some u) c h =
    set-Linked host sid (codes "webSocketUrl") (str u) c refl refl refl h

socket-Linked :
    (set_host : Text → Text → Option Text) (host sid : Text) (o : Option Json) (c : Fields)
    → Linked host sid c
    → Holds (Linked host sid) (socket_url set_host host o c)
unfolding socket_url
socket-Linked set_host host sid none c h = unfold Holds in h
socket-Linked set_host host sid (some null) c h = unfold Holds in h
socket-Linked set_host host sid (some (bool b)) c h = unfold Holds in tt
socket-Linked set_host host sid (some (num n)) c h = unfold Holds in tt
socket-Linked set_host host sid (some (arr js)) c h = unfold Holds in tt
socket-Linked set_host host sid (some (obj fs)) c h = unfold Holds in tt
socket-Linked set_host host sid (some (str u)) c h = url-Linked host sid (set_host u host) c h

capabilities-Linked :
    (set_host : Text → Text → Option Text) (host sid : Text) (c : Fields)
    → Holds (Linked host sid) (capabilities_of set_host host sid c)
unfolding capabilities_of
capabilities-Linked set_host host sid c =
    socket-Linked set_host host sid _ _ (with_links-Linked host sid c)

holds_ok : (P : Fields → Type 0) (r : Result Fields) (c : Fields) → r ≡ ok c → Holds P r → P c
holds_ok P r c e h = unfold Holds in subst (Holds P) e h

-- The body in which the capabilities were put back.
put_back_reads :
    (json : JsonCodec) (body v : Fields) (sid : Text) (r : Result Fields) (out id : Text)
    → ReadsBack json
    → marshalled json (put_back body v sid r) ≡ ok (out, id)
    → (c : Fields) × (w : Fields) × (b : Fields) × (r ≡ ok c)
      × (id ≡ sid)
      × (json.unmarshal out ≡ some (obj b))
      × (get_field (codes "value") b ≡ some (obj w))
      × (get_field (codes "capabilities") w ≡ some (obj c))
unfolding put_back marshalled
put_back_reads json body v sid (err x) out id reads e = absurd (cc)
put_back_reads json body v sid panic out id reads e = absurd (cc)
put_back_reads json body v sid (ok c) out id reads e =
    let w = set_field (codes "capabilities") (obj c) v in
    let b = set_field (codes "value") (obj w) body in
    (
      c,
      w,
      b,
      refl,
      cc,
      ap json.unmarshal (sym (cc)) ∙ reads (obj b),
      get_field-set_field_self (codes "value") (obj w) body,
      get_field-set_field_self (codes "capabilities") (obj c) v,
    )

-- For the response of a browser that speaks W3C, `processBody` finds the id of the session, and where it
-- succeeds the client reads that id's links, to this host, in the capabilities of the response.
pub process_body_links :
    (json : JsonCodec) (set_host : Text → Text → Option Text) (input host : Text)
    (body v c : Fields) (sid out id : Text)
    → ReadsBack json
    → json.unmarshal input ≡ some (obj body)
    → get_field (codes "sessionId") body ≡ none
    → get_field (codes "value") body ≡ some (obj v)
    → get_field (codes "capabilities") v ≡ some (obj c)
    → get_field (codes "sessionId") v ≡ some (str sid)
    → process_body json set_host input host ≡ ok (out, id)
    → (id ≡ sid)
      × (b : Fields) × (w : Fields) × (d : Fields) × (json.unmarshal out ≡ some (obj b))
      × (get_field (codes "value") b ≡ some (obj w))
      × (get_field (codes "capabilities") w ≡ some (obj d))
      × Linked host sid d
unfolding process_body process_parsed process_fields process_w3c process_value process_capabilities
process_body_links json set_host input host body v c sid out id reads parsed old new caps named e =
    let shape : marshalled json (put_back body v sid (capabilities_of set_host host sid c))
        ≡ ok (out, id) =
      sym (
        ap (process_parsed json set_host host) parsed
        ∙ ap (λ o. marshalled json (process_fields set_host host body o)) old
        ∙ ap (λ o. marshalled json (process_w3c set_host host body o)) new
        ∙ ap (λ o. marshalled json (process_value set_host host body v o)) caps
        ∙ ap (λ o. marshalled json (process_capabilities set_host host body v c o)) named)
      ∙ e in
    let (d, w, b, is, same, read, value, there) =
      put_back_reads json body v sid _ out id reads shape in
    (
      same,
      b,
      w,
      d,
      read,
      value,
      there,
      holds_ok (Linked host sid) _ d is (capabilities-Linked set_host host sid c),
    )
