-- ===== src/Cli/McpConfig.antt =====
-- apps/cli/src/mcp-config.ts: the entry of the MCP server in the configuration of a client. How the
-- server is launched is an argument.
pub mod Merged
use crosscode.Prelude.{Bool, true, false, List, [], ◌∷◌, Option, none, some, get_or}
use crosscode.Prelude.Text.{Text, codes}
use crosscode.Cli.Json.{
  Json, Elements, Members, boolean, string, array, object, nil, element, end, field, nest,
}
use crosscode.Cli.JsonFile.{
  System, Thrown, Result, returned, threw, read_json_object, write_json_object_if_changed,
}

pub data McpClient : Type 0 where
  claude : McpClient
  cursor : McpClient
  gemini : McpClient
  opencode : McpClient

abbrev label : McpClient → Text
label claude = codes "Claude Code"
label cursor = codes "Cursor"
label gemini = codes "Gemini CLI"
label opencode = codes "OpenCode"

abbrev path_of : McpClient → List Text
path_of claude = codes ".mcp.json" ∷ []
path_of cursor = codes ".cursor" ∷ codes "mcp.json" ∷ []
path_of gemini = codes ".gemini" ∷ codes "settings.json" ∷ []
path_of opencode = codes "opencode.json" ∷ []

pub record McpLaunch : Type 0 where
  pub command : Text
  pub args : List Text
  pub env : Option (List (Text × Text))

pub record McpRegistration : Type 0 where
  pub client : McpClient
  pub label : Text
  pub path : Text
  pub changed : Bool

abbrev elements : List Text → Elements
elements [] = nil
elements (s ∷ l) = element (string s) (elements l)

abbrev fields : List (Text × Text) → Members
fields [] = end
fields ((k, s) ∷ l) = field k (string s) (fields l)

-- `...(launch.env && { [key]: launch.env })`
abbrev environment : Text → Option (List (Text × Text)) → Members
environment key none = end
environment key (some env) = field key (object (fields env)) end

abbrev pub server_entry : McpLaunch → Json
server_entry launch = object (
    field (codes "command") (string launch.command)
      (field (codes "args") (array (elements launch.args)) (environment (codes "env") launch.env)))

unfoldable pub with_mcp_servers_entry : Option Members → McpLaunch → Members
with_mcp_servers_entry existing launch =
    nest (codes "mcpServers") (codes "crosscode") (server_entry launch) (get_or existing end)

abbrev pub opencode_entry : McpLaunch → Json
opencode_entry launch = object (
    field (codes "type") (string (codes "local")) (
      field (codes "command") (array (elements (launch.command ∷ launch.args)))
        (field (codes "enabled") (boolean true) (environment (codes "environment") launch.env))))

unfoldable pub with_opencode_entry : Option Members → McpLaunch → Members
with_opencode_entry existing launch =
    nest (codes "mcp") (codes "crosscode") (opencode_entry launch) (get_or existing end)

unfoldable pub merged : McpClient → Option Members → McpLaunch → Members
merged opencode existing launch = with_opencode_entry existing launch
merged _ existing launch = with_mcp_servers_entry existing launch

module _ (system : System) where
  open system use {World}

  unfoldable pub config_path : Text → McpClient → Text
  config_path root client = system.join_path root (path_of client)

  abbrev pub registration : Text → McpClient → Bool → McpRegistration
  registration root client changed = record {
    client = client;
    label = label client;
    path = config_path root client;
    changed = changed;
  }

  abbrev registered : Text → McpClient → Result Bool → Result McpRegistration
  registered root client (returned changed) = returned (registration root client changed)
  registered root client (threw e) = threw e

  unfoldable pub register_existing :
      World
      → Text
      → McpClient
      → McpLaunch
      → Result (Option Members)
      → Result McpRegistration × World
  register_existing w root client launch (threw e) = (threw e, w)
  register_existing w root client launch (returned existing) =
      let (r, e) =
        write_json_object_if_changed system w (config_path root client) existing
          (merged client existing launch) in
      (registered root client r, e)

  unfoldable pub register_mcp_server :
      World → Text → McpClient → McpLaunch → Result McpRegistration × World
  unfolding register_existing
  register_mcp_server w root client launch =
      register_existing w root client launch (read_json_object system w (config_path root client))
