-- ===== src/Create/Body.antt =====
-- selenoid.go, `removeSelenoidOptions` and `processBody`: what is changed in the bodies of the request
-- for a new session and of its response.
pub mod FieldLaws
pub mod Links
pub mod Hidden
mod Examples
use selenoid.Base.{
  ℕ, Bool, true, false, Option, none, some, List, [], ◌∷◌, ◌++◌, Text, text_eq, codes,
  if◌then◌else◌,
}
use selenoid.Json.{
  Json, Items, Fields, null, bool, num, str, arr, obj, nil, cons, end, field, JsonCodec,
}
use selenoid.Capabilities.{Result, ok, err, panic}

-- A `map[string]interface{}` is its fields, each key once.
unfoldable pub get_field : Text → Fields → Option Json
get_field k end = none
get_field k (field j v fs) = if text_eq j k then some v else get_field k fs

unfoldable pub delete_field : Text → Fields → Fields
delete_field k end = end
delete_field k (field j v fs) =
    let rest = delete_field k fs in if text_eq j k then rest else field j v rest

unfoldable pub set_field : Text → Json → Fields → Fields
set_field k v end = field k v end
set_field k v (field j w fs) =
    let rest = set_field k v fs in if text_eq j k then field j v fs else field j w rest

-- A change of what is an object, in place.
unfoldable pub on_object : (Fields → Fields) → Json → Json
on_object f (obj fs) = obj (f fs)
on_object f j = j

on_items : (Fields → Fields) → Items → Items
unfolding on_object
on_items f nil = nil
on_items f (cons j js) = cons (on_object f j) (on_items f js)

on_array : (Fields → Fields) → Json → Json
unfolding on_items
on_array f (arr js) = arr (on_items f js)
on_array f j = j

unfoldable pub update_field : Text → (Json → Json) → Fields → Fields
update_field k f end = end
update_field k f (field j v fs) =
    let rest = update_field k f fs in if text_eq j k then field j (f v) fs else field j v rest

is_safari : Option Json → Bool
is_safari (some (str name)) = text_eq name (codes "safari")
is_safari _ = false

has : Option Json → Bool
has none = false
has (some j) = true

-- `removeSafariBrowserNameForIOSNativeApp`
unfoldable pub remove_safari_browser_name : Fields → Fields
unfolding is_safari has
remove_safari_browser_name caps =
    if is_safari (get_field (codes "browserName") caps)
    then if has (get_field (codes "appium:bundleId") caps)
      then delete_field (codes "browserName") caps
      else if has (get_field (codes "appium:app") caps)
      then delete_field (codes "browserName") caps
      else caps
    else caps

pub strip : Fields → Fields
strip caps = remove_safari_browser_name (delete_field (codes "selenoid:options") caps)

strip_w3c : Fields → Fields
unfolding strip on_array
strip_w3c c =
    update_field (codes "firstMatch") (on_array strip)
      (update_field (codes "alwaysMatch") (on_object strip) c)

pub strip_body : Fields → Fields
unfolding strip strip_w3c
strip_body body =
    update_field (codes "capabilities") (on_object strip_w3c)
      (update_field (codes "desiredCapabilities") (on_object strip) body)

-- The map that a failed `json.Unmarshal` leaves is empty; `null` makes it nil, which is written `null`.
stripped : Option Json → Json
unfolding strip_body
stripped (some (obj body)) = obj (strip_body body)
stripped (some null) = null
stripped _ = obj end

pub remove_selenoid_options : JsonCodec → Text → Text
unfolding stripped
remove_selenoid_options json input = json.marshal (stripped (json.unmarshal input))

-- `fmt.Sprintf("ws://%s/<route>/%s/", host, sessionId)`
pub link : Text → Text → Text → Json
link route host sid = str (codes "ws://" ++ (host ++ (route ++ (sid ++ codes "/"))))

set_version : Option Json → Fields → Fields
set_version (some (str bv)) c = set_field (codes "se:cdpVersion") (str bv) c
set_version _ c = c

pub with_links : Text → Text → Fields → Fields
unfolding set_version link
with_links host sid c =
    let cdp = set_field (codes "se:cdp") (link (codes "/devtools/") host sid) c in
    let driver = set_field (codes "se:wsdriver") (link (codes "/wsdriver/") host sid) cdp in
    let linked = set_field (codes "se:wsdriverVersion") (str (codes "1")) driver in
    set_version (get_field (codes "browserVersion") linked) linked

with_url : Option Text → Fields → Result Fields
with_url none c = err (codes "parse 'websocketUrl' from response")
with_url (some u) c = ok (set_field (codes "webSocketUrl") (str u) c)

-- `set_host u host` stands for `url.Parse`, setting the host, and `String`; none where it does not parse.
socket_url : (Text → Text → Option Text) → Text → Option Json → Fields → Result Fields
unfolding with_url
socket_url set_host host none c = ok c
socket_url set_host host (some null) c = ok c
socket_url set_host host (some (str u)) c = with_url (set_host u host) c
socket_url set_host host (some _) c = panic

capabilities_of : (Text → Text → Option Text) → Text → Text → Fields → Result Fields
unfolding socket_url with_links
capabilities_of set_host host sid c =
    let linked = with_links host sid c in
    socket_url set_host host (get_field (codes "webSocketUrl") linked) linked

put_back : Fields → Fields → Text → Result Fields → Result (Fields × Text)
put_back body v sid (ok c) =
    ok (set_field (codes "value") (obj (set_field (codes "capabilities") (obj c) v)) body, sid)
put_back body v sid (err e) = err e
put_back body v sid panic = panic

-- `v["sessionId"].(string)` panics where that is no string.
process_capabilities :
    (Text → Text → Option Text)
    → Text
    → Fields
    → Fields
    → Fields
    → Option Json
    → Result (Fields × Text)
unfolding capabilities_of put_back
process_capabilities set_host host body v c (some (str sid)) =
    put_back body v sid (capabilities_of set_host host sid c)
process_capabilities set_host host body v c _ = panic

process_value :
    (Text → Text → Option Text) → Text → Fields → Fields → Option Json → Result (Fields × Text)
unfolding process_capabilities
process_value set_host host body v (some (obj c)) =
    process_capabilities set_host host body v c (get_field (codes "sessionId") v)
process_value set_host host body v _ = ok (body, [])

process_w3c : (Text → Text → Option Text) → Text → Fields → Option Json → Result (Fields × Text)
unfolding process_value
process_w3c set_host host body (some (obj v)) =
    process_value set_host host body v (get_field (codes "capabilities") v)
process_w3c set_host host body _ = ok (body, [])

process_fields : (Text → Text → Option Text) → Text → Fields → Option Json → Result (Fields × Text)
unfolding process_w3c
process_fields set_host host body (some (str sid)) = ok (body, sid)
process_fields set_host host body (some _) = ok (body, [])
process_fields set_host host body none =
    process_w3c set_host host body (get_field (codes "value") body)

marshalled : JsonCodec → Result (Fields × Text) → Result (Text × Text)
marshalled json (ok (body, sid)) = ok (json.marshal (obj body), sid)
marshalled json (err e) = err e
marshalled json panic = panic

process_parsed : JsonCodec → (Text → Text → Option Text) → Text → Option Json → Result (Text × Text)
unfolding process_fields marshalled
process_parsed json set_host host (some (obj body)) =
    marshalled json (process_fields set_host host body (get_field (codes "sessionId") body))
process_parsed json set_host host (some null) = ok (json.marshal null, [])
process_parsed json set_host host _ = err (codes "parse body response")

-- The new body and the id of the session.
pub process_body : JsonCodec → (Text → Text → Option Text) → Text → Text → Result (Text × Text)
unfolding process_parsed
process_body json set_host input host = process_parsed json set_host host (json.unmarshal input)
