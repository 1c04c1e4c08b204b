-- ===== src/Protocol/Identity.antt =====
-- python/fala/protocol.py: the identity of a message does not depend on the order of the keys in it.
use fala.Prelude.{String, ◌<>◌, ◌&&◌, not, ◌≡◌, refl, sym, ◌∙◌, ap}
use fala.Python.Outcome.{Error, Outcome, ok, raise, raise_if, protocol_error, ◌>>=◌, ◌>>◌}
use fala.Python.Text.{truthy}
use fala.Python.Value.{Value, Fields, dict, list, null, bool, int, float, str}
use fala.Python.Json.{Platform, compact}
use fala.Python.Reordered.{
  Reordered, ReorderedFields, same, in_list, in_dict, fields, dumps-Reordered, fields_same,
}
use fala.Protocol.Message.{
  Request, Result, mapping, contract_body, request_fields, canonical, message_id, new_request,
}

-- What a call made, up to the order of keys: its identity, or its exception.
abbrev pub request_id : Outcome Request → Outcome String
request_id m = do r ← m; ok r.id

abbrev pub result_id : Outcome Result → Outcome String
result_id m = do r ← m; ok r.id

module _ ⦃platform : Platform⦄ where
  pub message_id-Reordered :
      (fs gs : Fields) → ReorderedFields fs gs → message_id fs ≡ message_id gs
  unfolding message_id canonical
  message_id-Reordered fs gs h =
      ap (λ m. do text ← m; ok ("msg:sha256:" <> platform.sha256_hex text))
        (dumps-Reordered compact (dict fs) (dict gs) (in_dict h))

  -- Two payloads that are both taken, or both refused.
  data Alike : Outcome Fields → Outcome Fields → Type 0 where
    taken : {fs gs : Fields} → ReorderedFields fs gs → Alike (ok fs) (ok gs)
    refused : {e : Error} → Alike (raise e) (raise e)

  mapping-Alike :
      (pointer : String) (v w : Value)
      → Reordered v w
      → Alike (mapping pointer v) (mapping pointer w)
  mapping-Alike pointer (dict fs) _ same = taken (fields_same fs)
  mapping-Alike pointer null _ same = refused
  mapping-Alike pointer (bool b) _ same = refused
  mapping-Alike pointer (int n) _ same = refused
  mapping-Alike pointer (float x) _ same = refused
  mapping-Alike pointer (str s) _ same = refused
  mapping-Alike pointer (list vs) _ same = refused
  mapping-Alike pointer _ _ (in_list h) = refused
  mapping-Alike pointer _ _ (in_dict h) = taken h

  module _ (sender recipient job contract_id contract_version : String) where
    abbrev request_from : (payload config : Fields) → String → Request
    request_from payload config digest = record {
      sender = sender;
      recipient = recipient;
      job = job;
      payload = payload;
      config = config;
      contract_id = contract_id;
      contract_version = contract_version;
      id = digest;
    }

    request_id-made :
        (p c : Fields) (m : Outcome String)
        → request_id (do digest ← m; ok (request_from p c digest)) ≡ m
    request_id-made p c (ok digest) = refl
    request_id-made p c (raise e) = refl

    abbrev made : Outcome (Unit {0}) → (m n contract : Outcome Fields) → Outcome Request
    made u m n contract = do
      u
      p ← m
      c ← n
      rest ← contract
      digest ← message_id (request_fields sender recipient job p c rest)
      ok (request_from p c digest)

    made-Alike :
        (u : Outcome (Unit {0})) (m m' n n' contract : Outcome Fields)
        → Alike m m'
        → Alike n n'
        → request_id (made u m n contract) ≡ request_id (made u m' n' contract)
    made-Alike (raise e) m m' n n' contract h g = refl
    made-Alike (ok _) _ _ n n' contract refused g = refl
    made-Alike (ok _) _ _ _ _ contract (taken h) refused = refl
    made-Alike (ok _) _ _ _ _ (raise e) (taken h) (taken g) = refl
    made-Alike (ok _) _ _ _ _ (ok rest) (taken {fs = p} {gs = q} h) (taken {fs = c} {gs = d} g) =
        request_id-made p c (message_id (request_fields sender recipient job p c rest))
        ∙ message_id-Reordered _ _ (
            fields same (
              fields same (
                fields same (
                  fields same
                    (fields same (fields (in_dict h) (fields (in_dict g) (fields_same rest))))))))
        ∙ sym (request_id-made q d (message_id (request_fields sender recipient job q d rest)))

    -- Two calls of Request whose payloads and configs differ in the order of keys only, at whatever
    -- depth, make requests with the same id, or raise the same exception.
    pub new_request-Reordered :
        (p q c d : Value)
        → Reordered p q
        → Reordered c d
        → request_id (new_request sender recipient job p c contract_id contract_version)
          ≡ request_id (new_request sender recipient job q d contract_id contract_version)
    unfolding new_request
    new_request-Reordered p q c d h g =
        made-Alike
          (raise_if (not (truthy sender && (truthy recipient && truthy job)))
            (protocol_error "fep.required" "/from"))
          _ _ _ _ (contract_body contract_id contract_version) (mapping-Alike "/payload" p q h)
          (mapping-Alike "/config" c d g)
