-- ===== src/Handler/Replies.antt =====
-- The responses that several handlers share: create_error_response and attach_correlation_id.
use pow_server.Prelude.{◌≡◌, ◌∙◌, Option, none, some, Text, Error, what}
use pow_server.Json.{PropertyTree, Key, text}

module _ {Double Tree : Type 0} (json : PropertyTree Double Tree) where
  -- attach_correlation_id
  unfoldable pub attach_correlation_id : Option Text → Tree → Tree
  attach_correlation_id none response = response
  attach_correlation_id (some i) response = json.put response Key.id (text i)

  unfoldable pub error_tree : Option Text → Error → Tree
  unfolding attach_correlation_id
  error_tree id e = attach_correlation_id id (json.put json.empty Key.error (text (what e)))

  -- create_error_response
  unfoldable pub create_error_response : Option Text → Error → Text
  create_error_response id e = json.write_json (error_tree id e)

  -- An error response names the error, and carries the request's correlation id if it had one.
  pub error_tree_fields :
      (id : Option Text) (e : Error)
      → (json.get_optional (error_tree id e) Key.error ≡ some (what e))
        × (json.get_optional (error_tree id e) Key.id ≡ id)
  unfolding error_tree
  error_tree_fields none e = (
    json.get_optional-put_self json.empty Key.error (what e),
    json.get_optional-put_ne json.empty Key.error Key.id (text (what e)) (λ p. cc)
        ∙ json.get_optional-empty Key.id,
  )
  error_tree_fields (some i) e = (
    json.get_optional-put_ne _ Key.id Key.error (text i) (λ p. cc)
        ∙ json.get_optional-put_self json.empty Key.error (what e),
    json.get_optional-put_self _ Key.id i,
  )
