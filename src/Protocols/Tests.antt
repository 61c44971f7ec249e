-- ===== src/Protocols/Tests.antt =====
-- Paths of requests.
use clipal.Common.{◌≡◌, text}
use clipal.Protocols.Paths.{collapse_nested_versioned_path, collapse_one_nested_versioned_path}
use clipal.Protocols.Contexts.{detect_clipal_request_context}
use clipal.Protocols.Termination.{collapse_nested_versioned_path-stable}
use clipal.Protocols.Agreement.{detect_clipal_request_context-IsContextOf, IsContextOf}

collapse_nested_versioned_path-stable_example :
    collapse_one_nested_versioned_path (collapse_nested_versioned_path (text "/v1/v1beta/models"))
    ≡ collapse_nested_versioned_path (text "/v1/v1beta/models")
collapse_nested_versioned_path-stable_example =
    collapse_nested_versioned_path-stable (text "/v1/v1beta/models")

detect_clipal_request_context-IsContextOf_example :
    IsContextOf (text "/messages") (detect_clipal_request_context (text "/messages"))
detect_clipal_request_context-IsContextOf_example =
    detect_clipal_request_context-IsContextOf (text "/messages")
