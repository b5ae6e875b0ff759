-- ===== src/Provisioners/Wsman.antt =====
-- src/cert_publisher/wsman.py: one SOAP request for each read of an attribute or call of a method,
-- over a session that is pinned to one certificate (tlspin.py).
pub mod Keeps
use Prim.Native.String
use cert_publisher.Prelude.{
  ℕ, String, Bool, true, false, ◌&&◌, ◌||◌, Option, none, some, List, [], ◌∷◌, ◌==◌, nat_eq, map,
  if◌then◌else◌,
}
use cert_publisher.Prelude.Keys.{Dict, get, put}
use cert_publisher.Prelude.Text.{concat, truncate}
use cert_publisher.Effects.{runtime_error, Exception, Result, ok, raised}
use cert_publisher.Provisioners.Xml.{
  Element, Elements, nil, cons, tag_of, text_of, children_of, or_blank, iter, itertext, find, strip,
  local_name,
}
use cert_publisher.Provisioners.Dialogue.{
  Reply, posts, Outside, Line, Talk, pure, raise, lift, uuid, ◌>>=◌, ◌>>◌,
}

pub record WsmanClient : Type 0 where
  pub host : String
  pub url : String
  pub timeout : ℕ
  pub username : String
  pub password : String
  pub pin : String

-- `WSManError`
abbrev pub wsman_error : List String → Exception
wsman_error parts = record { kind = runtime_error; text = concat parts }

-- xml.sax.saxutils.escape, one character at a time
escape_one : String → String
escape_one c =
    if c == "&" then "&amp;" else if c == "<" then "&lt;" else if c == ">" then "&gt;" else c

pub escape : String → String
unfolding escape_one
escape String.[] = String.[]
escape (String.◌∷◌ c s) = String.◌++◌ (escape_one (String.◌∷◌ c String.[])) (escape s)

has_character : String → String → Bool
has_character c String.[] = false
has_character c (String.◌∷◌ d s) = String.◌∷◌ d String.[] == c || has_character c s

attribute_one : String → String
attribute_one c =
    if c == "\n" then "&#10;" else if c == "\r" then "&#13;" else if c == "\t" then "&#9;" else c

substitute : (String → String) → String → String
substitute f String.[] = String.[]
substitute f (String.◌∷◌ c s) = String.◌++◌ (f (String.◌∷◌ c String.[])) (substitute f s)

-- xml.sax.saxutils.quoteattr
quoteattr : String → String
unfolding substitute attribute_one has_character escape
quoteattr s =
    let escaped = substitute attribute_one (escape s) in
    if has_character "\"" escaped
    then (if has_character "'" escaped
        then concat ("\"" ∷ substitute (λ c. if c == "\"" then "&quot;" else c) escaped ∷ "\"" ∷ [])
        else concat ("'" ∷ escaped ∷ "'" ∷ []))
    else concat ("\"" ∷ escaped ∷ "\"" ∷ [])

selector_xml : Dict String → String
unfolding quoteattr escape
selector_xml [] = ""
selector_xml ((k, v) ∷ d) = concat (
    "<wsman:Selector Name="
    ∷ quoteattr k
    ∷ ">"
    ∷ escape v
    ∷ "</wsman:Selector>"
    ∷ selector_xml d
    ∷ [])

-- `_param_elements`. A parameter that is not a list has one value.
param_elements : String → List String → String
unfolding escape
param_elements name [] = ""
param_elements name (v ∷ vs) =
    concat ("<n1:" ∷ name ∷ ">" ∷ escape v ∷ "</n1:" ∷ name ∷ ">" ∷ param_elements name vs ∷ [])

params_xml : Dict (List String) → String
unfolding param_elements
params_xml [] = ""
params_xml ((name, values) ∷ d) = concat (param_elements name values ∷ params_xml d ∷ [])

abbrev soap : String
soap = "http://www.w3.org/2003/05/soap-envelope"

abbrev pub dell_schema : String
dell_schema = "http://schemas.dell.com/wbem/wscim/1/cim-schema/2/"

abbrev get_action : String
get_action = "http://schemas.xmlsoap.org/ws/2004/09/transfer/Get"

-- What `_wrap` and `_envelope` have in common: the action and the body are escaped already.
envelope_text :
    WsmanClient → (ℕ → String) → String → String → String → Dict String → String → String
unfolding escape selector_xml
envelope_text c str id action resource_uri selectors body = concat (
    "<?xml version=\"1.0\" encoding=\"utf-8\"?><s:Envelope xmlns:s=\""
    ∷ soap
    ∷ "\" xmlns:wsa=\"http://schemas.xmlsoap.org/ws/2004/08/addressing\" xmlns:wsman=\"http://schemas.dmtf.org/wbem/wsman/1/wsman.xsd\"><s:Header><wsa:To>"
    ∷ escape c.url
    ∷ "</wsa:To><wsman:ResourceURI>"
    ∷ escape resource_uri
    ∷ "</wsman:ResourceURI><wsa:ReplyTo><wsa:Address>http://schemas.xmlsoap.org/ws/2004/08/addressing/role/anonymous</wsa:Address></wsa:ReplyTo><wsa:Action>"
    ∷ action
    ∷ "</wsa:Action><wsa:MessageID>uuid:"
    ∷ id
    ∷ "</wsa:MessageID><wsman:MaxEnvelopeSize s:mustUnderstand=\"true\">512000</wsman:MaxEnvelopeSize><wsman:OperationTimeout>PT"
    ∷ str c.timeout
    ∷ ".000S</wsman:OperationTimeout><wsman:SelectorSet>"
    ∷ selector_xml selectors
    ∷ "</wsman:SelectorSet></s:Header><s:Body>"
    ∷ body
    ∷ "</s:Body></s:Envelope>"
    ∷ [])

-- `_wrap`
wrap : WsmanClient → (ℕ → String) → String → String → String → Dict String → String → String
unfolding envelope_text escape
wrap c str id action resource_uri selectors body =
    envelope_text c str id (escape action) resource_uri selectors body

-- `_envelope`
envelope_of :
    WsmanClient
    → (ℕ → String)
    → String
    → String
    → String
    → Dict (List String)
    → Dict String
    → String
unfolding envelope_text escape quoteattr params_xml
envelope_of c str id resource_uri method params selectors =
    envelope_text c str id (concat (escape resource_uri ∷ "/" ∷ escape method ∷ [])) resource_uri
      selectors
      (concat (
        "<n1:"
        ∷ method
        ∷ "_INPUT xmlns:n1="
        ∷ quoteattr resource_uri
        ∷ ">"
        ∷ params_xml params
        ∷ "</n1:"
        ∷ method
        ∷ "_INPUT>"
        ∷ []))

-- `" ".join(t.strip() for t in … if t.strip())`
join_stripped : List String → String
join_stripped [] = ""
join_stripped (t ∷ ts) =
    let rest = join_stripped ts in
    if strip t == ""
    then rest
    else if rest == ""
    then strip t
    else concat (strip t ∷ " " ∷ rest ∷ [])

-- `_fault_text`
fault_text : Element → Option String
unfolding join_stripped
fault_text root = elim (find (concat ("{" ∷ soap ∷ "}Fault" ∷ [])) root) [
  | none ↦ none
  | some fault ↦ some (truncate 500 (join_stripped (itertext fault)))
]

-- The children of an element, each under its local name.
child_fields : Elements → Dict String → Dict String
child_fields nil fields = fields
child_fields (cons e es) fields =
    child_fields es (put (local_name (tag_of e)) (strip (or_blank (text_of e))) fields)

pub instance_fields : String → List Element → Dict String → Dict String
unfolding child_fields
instance_fields name [] fields = fields
instance_fields name (e ∷ es) fields =
    instance_fields name es
      (if local_name (tag_of e) == name then child_fields (children_of e) fields else fields)

-- `f"{fields[key]}, {text}" if key in fields else text`
joined : Option String → String → String
joined none text = text
joined (some old) text = concat (old ∷ ", " ∷ text ∷ [])

output_children : Elements → Dict String → Dict String
unfolding joined
output_children nil fields = fields
output_children (cons e es) fields =
    let key = local_name (tag_of e) in
    output_children es (put key (joined (get key fields) (strip (or_blank (text_of e)))) fields)

output_elements : String → List Element → Dict String → Dict String
unfolding output_children
output_elements name [] fields = fields
output_elements name (e ∷ es) fields =
    output_elements name es
      (if local_name (tag_of e) == name then output_children (children_of e) fields else fields)

-- `_output_fields`
pub output_fields : Element → String → Dict String
unfolding output_elements
output_fields root method = output_elements (concat (method ∷ "_OUTPUT" ∷ [])) (iter root) []

abbrev pub card_service : String
card_service = "DCIM_iDRACCardService"

-- `_SELECTORS_BY_CLASS.get(cim_class)`
selectors_of : String → Option (Dict String)
selectors_of cim_class =
    if cim_class == card_service
    then some (
        ("CreationClassName", "DCIM_iDRACCardService")
        ∷ ("Name", "DCIM:iDRACCardService")
        ∷ ("SystemCreationClassName", "DCIM_ComputerSystem")
        ∷ ("SystemName", "DCIM:ComputerSystem")
        ∷ [])
    else none

-- `rc in (RC_SUCCESS, RC_JOB_CREATED)`
pub is_success : Option String → Bool
is_success none = false
is_success (some rc) = rc == "0" || rc == "4096"

-- `rc` in an f-string.
abbrev rc_text : Option String → String
rc_text none = "None"
rc_text (some rc) = rc

message_or : Option String → String
message_or none = "no message returned by the iDRAC"
message_or (some m) = if m == "" then "no message returned by the iDRAC" else m

-- How `_send` judges a response: the fault before the status, the status before the body.
judge_status : WsmanClient → (ℕ → String) → String → ℕ → Option Element → Result Element
judge_status c str what status root =
    if nat_eq status 200
    then elim root [
      | none ↦ raised (wsman_error (what ∷ " on " ∷ c.host ∷ " returned an unparseable body" ∷ []))
      | some r ↦ ok r
    ]
    else raised (wsman_error (what ∷ " on " ∷ c.host ∷ " returned HTTP " ∷ str status ∷ []))

judge_fault : WsmanClient → String → Option String → Result Element → Result Element
judge_fault c what none otherwise = otherwise
judge_fault c what (some fault) otherwise =
    raised (wsman_error (what ∷ " on " ∷ c.host ∷ " faulted: " ∷ fault ∷ []))

fault_of : Option Element → Option String
unfolding fault_text
fault_of none = none
fault_of (some root) = fault_text root

pub judge : WsmanClient → (ℕ → String) → String → Reply → Result Element
unfolding judge_status judge_fault fault_of
judge c str what r = judge_fault c what (fault_of r.root) (judge_status c str what r.status r.root)

module _ ⦃o : Outside⦄ where
  -- `self.session.post(…)`
  unfoldable pub post : WsmanClient → String → String → Talk Reply
  post c envelope what l =
      let r = o.post l.trail c.url envelope in
      (
        r,
        record l {
          trail =
              posts (record {
                pin = c.pin;
                password = c.password;
                what = what;
                envelope = envelope;
                reply = r;
              })
              ∷ l.trail;
        },
      )

  -- `_send`
  unfoldable pub send : WsmanClient → String → String → Talk Element
  send c envelope what = do r ← post c envelope what; lift (judge c o.str what r)

  pub get_envelope : WsmanClient → String → String → Dict String → String
  unfolding wrap
  get_envelope c id cim_class selectors =
      wrap c o.str id get_action (concat (dell_schema ∷ cim_class ∷ [])) selectors ""

  -- `get`
  unfoldable pub read : WsmanClient → String → Dict String → Talk (Dict String)
  unfolding get_envelope
  read c cim_class selectors = do
    id ← uuid
    root ← send c (get_envelope c id cim_class selectors) (concat (cim_class ∷ " Get" ∷ []))
    pure (instance_fields cim_class (iter root) [])

  -- What `invoke` makes of the output of a method, with `expect_return`.
  pub checked : WsmanClient → String → String → Dict String → Result (Dict String)
  unfolding message_or
  checked c cim_class method output =
      if is_success (get "ReturnValue" output)
      then ok output
      else raised (
          wsman_error (
            cim_class
            ∷ "."
            ∷ method
            ∷ " on "
            ∷ c.host
            ∷ " failed (ReturnValue="
            ∷ rc_text (get "ReturnValue" output)
            ∷ "): "
            ∷ message_or (get "Message" output)
            ∷ []))

  invoke_with :
      WsmanClient → String → String → Dict (List String) → Option (Dict String) → Talk (Dict String)
  unfolding envelope_of
  invoke_with c cim_class method params none =
      raise (wsman_error ("no WS-Man selectors are known for " ∷ cim_class ∷ []))
  invoke_with c cim_class method params (some selectors) = do
    id ← uuid
    root ←
        send c
          (envelope_of c o.str id (concat (dell_schema ∷ cim_class ∷ [])) method params selectors)
          (concat (cim_class ∷ "." ∷ method ∷ []))
    lift (checked c cim_class method (output_fields root method))

  unfoldable pub invoke : WsmanClient → String → String → Dict (List String) → Talk (Dict String)
  unfolding invoke_with selectors_of
  invoke c cim_class method params = invoke_with c cim_class method params (selectors_of cim_class)
