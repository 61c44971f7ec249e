-- ===== src/Protocols/Contexts.antt =====
-- internal/proxy/protocols.go: the context of a request, from its path alone or for a client.
use clipal.Common.{Bool, true, Option, none, some, Text}
use clipal.Providers
use clipal.Providers.{Capability}
use clipal.Protocols.Paths.{normalize_upstream_path}
use clipal.Protocols.Canonical.{canonicalize_clipal_path}
use clipal.Protocols.Detect.{
  detect_claude_capability, detect_gemini_capability, detect_openai_capability,
}

pub data ClientType : Type 0 where
  client_claude client_openai client_google : ClientType

pub data ProtocolFamily : Type 0 where
  family_claude family_openai family_gemini : ProtocolFamily

pub record RequestContext : Type 0 where
  pub client_type : ClientType
  pub family : ProtocolFamily
  pub capability : Capability
  pub upstream_path : Text
  pub unified_ingress : Bool

unfoldable pub detect_clipal_request_context : Text → Option RequestContext
detect_clipal_request_context given =
    let path = canonicalize_clipal_path given in
    elim (detect_claude_capability path) [
      | some capability ↦ some (record {
        client_type = client_claude;
        family = family_claude;
        capability = capability;
        upstream_path = path;
        unified_ingress = true;
      })
      | none ↦ elim (detect_gemini_capability path) [
        | some capability ↦ some (record {
          client_type = client_google;
          family = family_gemini;
          capability = capability;
          upstream_path = path;
          unified_ingress = true;
        })
        | none ↦ elim (detect_openai_capability path) [
          | some capability ↦ some (record {
            client_type = client_openai;
            family = family_openai;
            capability = capability;
            upstream_path = path;
            unified_ingress = true;
          })
          | none ↦ none
        ]
      ]
    ]

unfoldable pub capability_or_default : Option Capability → Capability → Capability
capability_or_default (some capability) fallback = capability
capability_or_default none fallback = fallback

unfoldable pub request_context_for_client_path : ClientType → Text → Bool → RequestContext
request_context_for_client_path client_claude given unified =
    let path = normalize_upstream_path given in
    record {
      client_type = client_claude;
      family = family_claude;
      capability =
          capability_or_default (detect_claude_capability path) Providers.claude_compatible;
      upstream_path = path;
      unified_ingress = unified;
    }
request_context_for_client_path client_openai given unified =
    let path = normalize_upstream_path given in
    record {
      client_type = client_openai;
      family = family_openai;
      capability =
          capability_or_default (detect_openai_capability path) Providers.openai_compatible;
      upstream_path = path;
      unified_ingress = unified;
    }
request_context_for_client_path client_google given unified =
    let path = normalize_upstream_path given in
    record {
      client_type = client_google;
      family = family_gemini;
      capability =
          capability_or_default (detect_gemini_capability path) Providers.gemini_compatible;
      upstream_path = path;
      unified_ingress = unified;
    }
