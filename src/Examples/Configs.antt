-- ===== src/Examples/Configs.antt =====
-- A checkout whose client has another server configured.
use crosscode.Prelude.{
  ◌≡◌, refl, sym, Bool, true, false, List, [], ◌∷◌, ◌++◌, Option, none, some, arith, if◌then◌else◌,
}
use crosscode.Prelude.Text.{Text, codes, same, same_refl}
use crosscode.Prelude.Dict.{Dict, lookup, insert, erase, lookup-insert, lookup-erase}
use crosscode.Cli.Json.{
  Json, Elements, Members, null, boolean, number, string, array, object, nil, element, end, field,
  get, put,
}
use crosscode.Cli.JsonFile.{
  System, Read, found, missing, returned, temporary_name, read_json_object, text_of,
  write_json_object_if_changed,
}
use crosscode.Cli.JsonFile.Atomic.{SystemLaws, content, found_text}
use crosscode.Cli.McpConfig.{
  claude, McpLaunch, config_path, registration, merged, with_mcp_servers_entry, register_mcp_server,
}
use crosscode.Cli.McpConfig.Merged.{Outcome, register_mcp_server_outcome, register_mcp_server_twice}

quoted : Text → Text
quoted s = codes "\"" ++ s ++ codes "\""

mutual
  unfolding quoted

  print : Json → Text
  print null = codes "null"
  print (boolean b) = if b then codes "true" else codes "false"
  print (number n) = n
  print (string s) = quoted s
  print (array l) = codes "[" ++ print_elements l ++ codes "]"
  print (object m) = codes "{" ++ print_members m ++ codes "}"

  print_elements : Elements → Text
  print_elements nil = []
  print_elements (element j nil) = print j
  print_elements (element j (element k l)) = print j ++ codes "," ++ print_elements (element k l)

  print_members : Members → Text
  print_members end = []
  print_members (field k j end) = quoted k ++ codes ":" ++ print j
  print_members (field k j (field i h m)) =
      quoted k ++ codes ":" ++ print j ++ codes "," ++ print_members (field i h m)

abbrev Files : Type 0
Files = Dict Text

read : Option Text → Read
read none = missing
read (some t) = found t

move : Option Text → Text → Text → Files → Bool × Files
move none p q w = (true, w)
move (some t) p q w = (false, insert q t (erase p w))

abbrev launch : McpLaunch
launch = record { command = codes "crosscode-mcp"; args = []; env = none }

abbrev base : Members
base =
    field (codes "mcpServers") (object (field (codes "other") (object end) end))
      (field (codes "theme") (string (codes "dark")) end)

abbrev after : Members
after =
    field (codes "mcpServers")
      (object (
        field (codes "other") (object end) (
          field (codes "crosscode")
            (object (
              field (codes "command") (string (codes "crosscode-mcp"))
                (field (codes "args") (array nil) end)))
            end)))
      (field (codes "theme") (string (codes "dark")) end)

-- What is read in this example.
known : Text → Option Json
unfolding print same
known t =
    if same t (print (object base))
    then some (object base)
    else if same t (print (object after) ++ codes "\n")
    then some (object after)
    else none

abbrev system : System
system = record {
  World = Files;
  read_file = λ w p. read (lookup p w);
  make_directory = λ w d. (false, w);
  write_file = λ w p t. (false, insert p t w);
  rename_file = λ w p q. move (lookup p w) p q w;
  remove_file = λ w p. erase p w;
  directory_name = λ p. p;
  join_path = λ root parts. root ++ join parts;
  parse = known;
  stringify = print;
  pretty = print;
  process_id = codes "1";
}
  where
    join : List Text → Text
    join [] = []
    join (p ∷ l) = codes "/" ++ p ++ join l

found_text-read : (o : Option Text) → found_text (read o) ≡ o
unfolding read
found_text-read none = refl
found_text-read (some t) = refl

content_lem : (w : Files) (p : Text) → content system w p ≡ lookup p w
content_lem w p = found_text-read (lookup p w)

move-content :
    (o : Option Text) (w : Files) (p q r : Text)
    → o ≡ lookup p w
    → (move o p q w).0 ≡ false
    → same p r ≡ false
    → lookup r (move o p q w).1 ≡ (if same q r then lookup p w else lookup r w)
unfolding move
move-content none w p q r e h apart = ground arith
move-content (some t) w p q r e h apart =
    rw (lookup-insert r q t (erase p w), lookup-erase r p w, apart, sym e) refl

unmoved-content :
    (o : Option Text) (w : Files) (p q r : Text)
    → (move o p q w).0 ≡ true
    → lookup r (move o p q w).1 ≡ lookup r w
unfolding move
unmoved-content none w p q r h = refl
unmoved-content (some t) w p q r h = ground arith

system_laws : SystemLaws system
system_laws = record {
  content-make = λ w d q. refl;
  content-write = λ w p t q apart.
      rw (content_lem (insert p t w) q, content_lem w q, lookup-insert q p t w, apart) refl;
  written = λ w p t h. rw (content_lem (insert p t w) p, lookup-insert p p t w, same_refl p) refl;
  renamed = λ w p q r h apart.
      rw (content_lem (move (lookup p w) p q w).1 r, content_lem w p, content_lem w r)
        (move-content (lookup p w) w p q r refl h apart);
  not_renamed = λ w p q r h.
      rw (content_lem (move (lookup p w) p q w).1 r, content_lem w r)
        (unmoved-content (lookup p w) w p q r h);
  content-remove = λ w p q apart.
      rw (content_lem (erase p w) q, content_lem w q, lookup-erase q p w, apart) refl;
}

abbrev checkout : Files
checkout = (codes "/r/.mcp.json", print (object base)) ∷ []

register_mcp_server_outcome_example :
    Outcome system system_laws checkout
      (codes "/r")
      claude
      launch
      (register_mcp_server system checkout (codes "/r") claude launch)
register_mcp_server_outcome_example =
    register_mcp_server_outcome system system_laws checkout (codes "/r") claude launch

was_read :
    (read_json_object system checkout (config_path system (codes "/r") claude)
      ≡ returned (some base))
    × (merged claude (some base) launch ≡ after)
    × (system.parse (text_of system after) ≡ some (object after))
    × ((register_mcp_server system checkout (codes "/r") claude launch).0
        ≡ returned (registration system (codes "/r") claude true))
unfolding read_json_object read lookup same config_path known merged with_mcp_servers_entry put get
    text_of register_mcp_server write_json_object_if_changed move insert temporary_name
was_read = (refl, refl, refl, refl)

register_mcp_server_twice_example :
    register_mcp_server system
      (register_mcp_server system checkout (codes "/r") claude launch).1
      (codes "/r")
      claude
      launch
    ≡ (
      returned (registration system (codes "/r") claude false),
      (register_mcp_server system checkout (codes "/r") claude launch).1,
    )
register_mcp_server_twice_example =
    register_mcp_server_twice system system_laws checkout (codes "/r") claude launch (some base)
      true was_read.0 (rw was_read.1 was_read.2) was_read.3
