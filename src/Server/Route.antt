-- ===== src/Server/Route.antt =====
-- The `match` of `handle` in crates/xo-syncd/src/server.rs.
use exokephalos.Prelude.{Bool, true, false, ◌&&◌, ◌||◌, if◌then◌else◌}
use exokephalos.Prelude.Order.{same}
use exokephalos.Prelude.Text.{Text, text, text_ord, starts_with, strip_prefix}
use exokephalos.Server.Checks.{rest_after}
use exokephalos.Server.Http.{
  Method, get_method, post_method, patch_method, delete_method, head_method, other_method,
}

pub data Routed : Type 0 where
  health description auth_configuration sync : Routed
  list_keys create_keys create_items : Routed
  webhook_at remove_key_at typed_item_at item_at : Text → Routed
  no_api no_health_method asset asset_head no_method : Routed

abbrev pub is_get : Method → Bool
is_get get_method = true
is_get post_method = false
is_get patch_method = false
is_get delete_method = false
is_get head_method = false
is_get other_method = false

abbrev pub is_post : Method → Bool
is_post post_method = true
is_post get_method = false
is_post patch_method = false
is_post delete_method = false
is_post head_method = false
is_post other_method = false

abbrev pub is_delete : Method → Bool
is_delete delete_method = true
is_delete get_method = false
is_delete post_method = false
is_delete patch_method = false
is_delete head_method = false
is_delete other_method = false

abbrev pub is_head : Method → Bool
is_head head_method = true
is_head get_method = false
is_head post_method = false
is_head patch_method = false
is_head delete_method = false
is_head other_method = false

abbrev pub rest_of : Text → Text → Text
rest_of prefix path = rest_after (strip_prefix prefix path)

-- The arms of the `match`, in order.
unfoldable pub route_of : Method → Text → Routed
route_of method path =
    if is_get method && same path (text "/healthz")
    then health
    else if is_get method && same path (text "/llm.txt")
    then description
    else if is_get method && same path (text "/.well-known/xo-configuration")
    then auth_configuration
    else if is_post method && starts_with (text "/api/webhook/") path
    then webhook_at (rest_of (text "/api/webhook/") path)
    else if is_get method && same path (text "/api/sync")
    then sync
    else if is_get method && same path (text "/api/api-keys")
    then list_keys
    else if is_post method && same path (text "/api/api-keys")
    then create_keys
    else if is_delete method && starts_with (text "/api/api-keys/") path
    then remove_key_at (rest_of (text "/api/api-keys/") path)
    else if is_post method && same path (text "/api/items")
    then create_items
    else if is_post method && starts_with (text "/api/item/") path
    then typed_item_at (rest_of (text "/api/item/") path)
    else if starts_with (text "/api/items/") path
    then item_at (rest_of (text "/api/items/") path)
    else if same path (text "/api") || starts_with (text "/api/") path
    then no_api
    else if same path (text "/healthz")
    then no_health_method
    else if is_get method
    then asset
    else if is_head method
    then asset_head
    else no_method

-- The path as the log shows it.
unfoldable pub log_path : Text → Text
log_path path = if starts_with (text "/api/webhook/") path then text "/api/webhook/:name" else path
