-- ===== src/Create/Body/Examples.antt =====
-- Bodies of a request and of a response, and the theorems about them.
use selenoid.Base.{◌≡◌, refl, ap, Option, none, some, Text, codes, text_eq}
use selenoid.Json.{Json, Fields, str, obj, end, field}
use selenoid.Json.Prefix.{prefix_json, prefix_json-ReadsBack}
use selenoid.Capabilities.{ok}
use selenoid.Create.Body.{
  get_field, set_field, link, with_links, set_version, socket_url, capabilities_of, put_back,
  marshalled, process_parsed, process_fields, process_w3c, process_value, process_capabilities,
  process_body, remove_selenoid_options,
}
use selenoid.Create.Body.Hidden.{Hides, HidesEach, remove_selenoid_options-Hides}
use selenoid.Create.Body.Links.{Linked, process_body_links}

-- A request with options of Selenoid.
abbrev wanted : Fields
wanted =
    field (codes "desiredCapabilities")
      (obj (
        field (codes "browserName") (str (codes "chrome"))
          (field (codes "selenoid:options") (obj end) end)))
      end

abbrev wanted_input : Text
wanted_input = prefix_json.marshal (obj wanted)

remove_selenoid_options-Hides_example :
    (sent : Fields) × (prefix_json.unmarshal (remove_selenoid_options prefix_json wanted_input)
      ≡ some (obj sent))
    × ((v : Json) → get_field (codes "desiredCapabilities") sent ≡ some v → Hides v)
    × ((c : Fields)
        → get_field (codes "capabilities") sent ≡ some (obj c)
        → ((v : Json) → get_field (codes "alwaysMatch") c ≡ some v → Hides v)
          × ((v : Json) → get_field (codes "firstMatch") c ≡ some v → HidesEach v))
remove_selenoid_options-Hides_example =
    remove_selenoid_options-Hides prefix_json wanted_input wanted prefix_json-ReadsBack
      (prefix_json-ReadsBack (obj wanted))

-- A response in the format of W3C.
abbrev caps : Fields
caps = field (codes "browserVersion") (str (codes "120.0")) end

abbrev value : Fields
value = field (codes "sessionId") (str (codes "a1")) (field (codes "capabilities") (obj caps) end)

abbrev response : Fields
response = field (codes "value") (obj value) end

abbrev host : Text
host = codes "selenoid:4444"

abbrev no_url : Text → Text → Option Text
no_url u h = none

abbrev linked_caps : Fields
linked_caps = field (codes "browserVersion") (str (codes "120.0")) (
    field (codes "se:cdp") (str (codes "ws://selenoid:4444/devtools/a1/")) (
      field (codes "se:wsdriver") (str (codes "ws://selenoid:4444/wsdriver/a1/")) (
        field (codes "se:wsdriverVersion") (str (codes "1"))
          (field (codes "se:cdpVersion") (str (codes "120.0")) end))))

abbrev linked_response : Fields
linked_response =
    field (codes "value")
      (obj (
        field (codes "sessionId") (str (codes "a1"))
          (field (codes "capabilities") (obj linked_caps) end)))
      end

response_processed :
    process_body prefix_json no_url (prefix_json.marshal (obj response)) host
    ≡ ok (prefix_json.marshal (obj linked_response), codes "a1")
unfolding process_body process_parsed process_fields process_w3c process_value process_capabilities
    capabilities_of put_back marshalled socket_url with_links set_version link get_field set_field
    text_eq
response_processed =
    ap (process_parsed prefix_json no_url host) (prefix_json-ReadsBack (obj response))

no_session : get_field (codes "sessionId") response ≡ none
unfolding get_field text_eq
no_session = refl

value_there : get_field (codes "value") response ≡ some (obj value)
unfolding get_field text_eq
value_there = refl

caps_there : get_field (codes "capabilities") value ≡ some (obj caps)
unfolding get_field text_eq
caps_there = refl

id_there : get_field (codes "sessionId") value ≡ some (str (codes "a1"))
unfolding get_field text_eq
id_there = refl

process_body_links_example :
    (codes "a1" ≡ codes "a1")
    × (b : Fields) × (w : Fields) × (d : Fields) × (prefix_json.unmarshal
          (prefix_json.marshal (obj linked_response))
        ≡ some (obj b))
    × (get_field (codes "value") b ≡ some (obj w))
    × (get_field (codes "capabilities") w ≡ some (obj d))
    × Linked host (codes "a1") d
process_body_links_example =
    process_body_links prefix_json no_url (prefix_json.marshal (obj response)) host response value
      caps (codes "a1") (prefix_json.marshal (obj linked_response)) (codes "a1")
      prefix_json-ReadsBack (prefix_json-ReadsBack (obj response)) no_session value_there caps_there
      id_there response_processed
