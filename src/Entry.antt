-- ===== src/Entry.antt =====
-- src/entry/nano_pow_server.cpp: the endpoints that main registers, and the responses of the
-- handlers that do not reach the work handler.
pub mod Routes
pub mod State
pub mod Program
pub mod Steps
pub mod Accounts
pub mod Balance
pub mod Refines
pub mod Histories
pub mod Sessions
pub mod Shutdown
pub mod Accepting
pub mod Given
pub mod Answered
pub mod Control
pub mod Launch
pub mod CommandLine
mod Tests
mod StartTests
use pow_server.Prelude.{Bool, List, [], Text, codes, ◌++◌, if◌then◌else◌, ◌∷◌}
use pow_server.Config.{Config}
use pow_server.Web.Endpoints.{
  Regexes, Webserver, add_get_endpoint, add_post_endpoint, add_delete_endpoint,
  add_websocket_endpoint,
}
use pow_server.Web.Pages.{StaticPages}

-- The handlers of main, by their names.
pub data Action : Type 0 where
  work_endpoint work_queue_endpoint work_queue_delete_endpoint : Action
  ping stop version : Action

abbrev pub no_endpoints : {Regex Action : Type 0} → Webserver Regex Action
no_endpoints = record { handlers = []; websocket_handlers = [] }

-- The calls of add_…_endpoint, in their order.
unfoldable pub register_endpoints : {Regex : Type 0} → Regexes Regex → Webserver Regex Action
register_endpoints re =
    let w1 = add_post_endpoint re (codes "/") work_endpoint no_endpoints in
    let w2 = add_post_endpoint re (codes "/api/v1/work") work_endpoint w1 in
    let w3 = add_get_endpoint re (codes "/api/v1/work/queue") work_queue_endpoint w2 in
    let w4 = add_delete_endpoint re (codes "/api/v1/work/queue") work_queue_delete_endpoint w3 in
    let w5 = add_get_endpoint re (codes "/api/v1/ping") ping w4 in
    let w6 = add_get_endpoint re (codes "/api/v1/stop") stop w5 in
    let w7 = add_get_endpoint re (codes "/api/v1/version") version w6 in
    add_websocket_endpoint re (codes "/websocket") work_endpoint w7

-- web_conf
unfoldable pub web_config : Config → StaticPages
web_config conf = record { allow = conf.admin.enable; allow_remote = conf.admin.allow_remote }

abbrev pub version_string : Text
version_string = codes "1.0.0"

unfoldable pub ping_body : Text
ping_body = codes "{\"success\": \"true\"}"

-- What stop_handler responds, and whether the process exits behind the response.
unfoldable pub stop_handler : Config → Text × Bool
stop_handler conf = (
  if conf.server.allow_control
      then codes "{\"success\": \"true\"}"
      else codes "{\"error\": \"Control requests are not allowed\"}",
  conf.server.allow_control,
)

unfoldable pub version_body : Text
version_body = codes "{\"version\": \"" ++ version_string ++ codes "\"}"
