-- ===== src/Cli/McpConfig/Merged.antt =====
-- What `registerMcpServer` of apps/cli/src/mcp-config.ts leaves in the checkout.
use crosscode.Prelude.{
  ◌≡◌, ◌⊎◌, ◌∙◌, inl, inr, refl, sym, Bool, true, false, Option, some, get_or, if◌then◌else◌,
  Bool-cases,
}
use crosscode.Prelude.Text.{Text, codes, same, same_refl}
use crosscode.Cli.Json.{
  Json, Members, object, end, get, members_of, nest, nest_keeps, get-nest, nest_twice,
}
use crosscode.Cli.JsonFile.{
  System, Thrown, failed, Result, returned, threw, text_of, contents_object, as_object,
  read_json_object, write_json_object_if_changed,
}
use crosscode.Cli.JsonFile.Atomic.{
  SystemLaws, content, found_text_lem, temporary_name_apart, SameBut, Replaced,
  write_file_atomic_lem,
}
use crosscode.Cli.McpConfig.{
  McpClient, claude, cursor, gemini, opencode, McpLaunch, McpRegistration, registration,
  server_entry, opencode_entry, with_mcp_servers_entry, with_opencode_entry, merged, config_path,
  register_existing, register_mcp_server,
}

Result-cases :
    {A : Type 0} (r : Result A) → ((e : Thrown) × (r ≡ threw e)) ⊎ ((a : A) × (r ≡ returned a))
Result-cases (returned a) = inr (a, refl)
Result-cases (threw e) = inl (e, refl)

-- Where a client has its servers, and the one for this program.
abbrev pub section_of : McpClient → Text
section_of opencode = codes "mcp"
section_of _ = codes "mcpServers"

abbrev pub entry_of : McpClient → McpLaunch → Json
entry_of opencode launch = opencode_entry launch
entry_of _ launch = server_entry launch

abbrev pub servers : McpClient → Members → Members
servers client base = members_of (get (section_of client) base)

-- The server is there, and every other server and every other setting is as before.
abbrev pub Kept : McpClient → McpLaunch → Members → Members → Type 0
Kept client launch base after =
    ((setting : Text)
      → same (section_of client) setting ≡ false
      → get setting after ≡ get setting base)
    × ((name : Text)
        → get name (servers client after) ≡ (
            if same (codes "crosscode") name
            then some (entry_of client launch)
            else get name (servers client base)))

-- All clients merge in one way.
merged_lem :
    (client : McpClient) (existing : Option Members) (launch : McpLaunch)
    → merged client existing launch
      ≡ nest (section_of client) (codes "crosscode") (entry_of client launch) (get_or existing end)
unfolding merged with_mcp_servers_entry with_opencode_entry
merged_lem claude existing launch = refl
merged_lem cursor existing launch = refl
merged_lem gemini existing launch = refl
merged_lem opencode existing launch = refl

merged-Kept :
    (client : McpClient) (existing : Option Members) (launch : McpLaunch)
    → Kept client launch (get_or existing end) (merged client existing launch)
merged-Kept client existing launch =
    let section = section_of client in
    let base = get_or existing end in
    let entry = entry_of client launch in
    rw (merged_lem client existing launch) (
      λ setting apart. nest_keeps section (codes "crosscode") setting entry base apart,
      λ name. get-nest section (codes "crosscode") name entry base,
    )

merged_twice :
    (client : McpClient) (existing : Option Members) (launch : McpLaunch)
    → merged client (some (merged client existing launch)) launch ≡ merged client existing launch
merged_twice client existing launch =
    rw
      (
        merged_lem client (some (merged client existing launch)) launch,
        merged_lem client existing launch,
      )
      (nest_twice (section_of client) (codes "crosscode") (entry_of client launch)
        (get_or existing end))

module _ (system : System) (laws : SystemLaws system) where
  open system use {World}

  -- What comes of a file that was read: a throw that leaves every file, nothing where the text of the
  -- merged object is that of the old one, or the file replaced.
  abbrev pub Written :
      World
      → Text
      → McpClient
      → McpLaunch
      → Option Members
      → Result McpRegistration × World
      → Type 0
  Written w root client launch existing (r, e) =
      ((r ≡ threw failed) × SameBut system laws (config_path system root client) w e)
      ⊎ (((r ≡ returned (registration system root client false))
            × (e ≡ w)
            × (same (system.stringify (object (merged client existing launch)))
                  (system.stringify (object (get_or existing end)))
                ≡ true))
          ⊎ ((r ≡ returned (registration system root client true))
              × Replaced system laws (config_path system root client)
                  (text_of system (merged client existing launch)) w e))

  -- Nothing is written where the text would be the same.
  same_text :
      (w : World) (root : Text) (client : McpClient) (launch : McpLaunch)
      (existing : Option Members)
      → read_json_object system w (config_path system root client) ≡ returned existing
      → same
          (system.stringify (object (merged client existing launch)))
          (system.stringify (object (get_or existing end)))
        ≡ true
      → register_mcp_server system w root client launch
        ≡ (returned (registration system root client false), w)
  unfolding register_mcp_server register_existing write_json_object_if_changed
  same_text w root client launch existing read e = rw (read, e) refl

  register_existing_lem :
      (w : World) (root : Text) (client : McpClient) (launch : McpLaunch)
      (existing : Option Members)
      → Written w root client launch existing
          (register_existing system w root client launch (returned existing))
  unfolding register_existing write_json_object_if_changed
  register_existing_lem w root client launch existing =
      let path = config_path system root client in
      let after = merged client existing launch in
      let made = (system.make_directory w (system.directory_name path)).1 in
      elim (Bool-cases (
        same (system.stringify (object after)) (system.stringify (object (get_or existing end))))) [
          | inl e ↦ rw e (inr (inl (refl, refl, refl)))
          | inr e ↦ elim (Bool-cases (system.make_directory w (system.directory_name path)).0) [
            | inl u ↦
                rw (e, u)
                  (inl (refl, λ q apart. laws.content-make w (system.directory_name path) q))
            | inr s ↦ elim (write_file_atomic_lem system laws made path (text_of system after)) [
              | inl t ↦
                  rw (e, s, t.0)
                    (inl (
                      refl,
                      λ q apart. t.1 q apart ∙ laws.content-make w (system.directory_name path) q,
                    ))
              | inr t ↦
                  rw (e, s, t.0)
                    (inr (
                      inr (
                        refl,
                        λ q apart.
                            rw (t.1 q apart, laws.content-make w (system.directory_name path) q)
                              refl,
                      )))
            ]
          ]
        ]

  written :
      (w : World) (root : Text) (client : McpClient) (launch : McpLaunch)
      (existing : Option Members)
      → read_json_object system w (config_path system root client) ≡ returned existing
      → Written w root client launch existing (register_mcp_server system w root client launch)
  unfolding register_mcp_server
  written w root client launch existing read =
      rw read (register_existing_lem w root client launch existing)

  reads_text :
      (e : World) (path : Text) (m : Members)
      → content system e path ≡ some (text_of system m)
      → system.parse (text_of system m) ≡ some (object m)
      → read_json_object system e path ≡ returned (some m)
  unfolding read_json_object contents_object as_object
  reads_text e path m there reads_back =
      rw (found_text_lem (system.read_file e path) (text_of system m) there, reads_back) refl

  abbrev pub Outcome :
      World → Text → McpClient → McpLaunch → Result McpRegistration × World → Type 0
  Outcome w root client launch outcome =
      ((e : Thrown) × (read_json_object system w (config_path system root client) ≡ threw e)
        × (outcome ≡ (threw e, w)))
      ⊎ ((existing : Option Members) × (read_json_object system w (config_path system root client)
            ≡ returned existing)
          × Kept client launch (get_or existing end) (merged client existing launch)
          × Written w root client launch existing outcome)

  -- Registering the server throws, with every file left but perhaps the temporary one beside the
  -- configuration, or returns. Where it returns, it has read the configuration (a missing one is
  -- empty) and says whether it changed it. If it did, every file but that one and the temporary one
  -- is as before, and the new one is the old one with the entry: every other server and every other
  -- setting is kept. If it did not, nothing has changed, and the text of the merged object is the old
  -- one.
  pub register_mcp_server_outcome :
      (w : World) (root : Text) (client : McpClient) (launch : McpLaunch)
      → Outcome w root client launch (register_mcp_server system w root client launch)
  unfolding register_mcp_server
  register_mcp_server_outcome w root client launch =
      elim (Result-cases (read_json_object system w (config_path system root client))) [
        | inl (e, h) ↦ inl (e, h, rw h (unfold register_existing in refl))
        | inr (existing, h) ↦ inr (
          existing,
          h,
          merged-Kept client existing launch,
          written w root client launch existing h,
        )
      ]

  -- After a registration that has returned, a second one changes nothing and says so, where the JSON
  -- text of the merged object reads back as that object (the text of a number that is infinite, or of
  -- a negative zero, does not).
  pub register_mcp_server_twice :
      (w : World) (root : Text) (client : McpClient) (launch : McpLaunch)
      (existing : Option Members) (changed : Bool)
      → read_json_object system w (config_path system root client) ≡ returned existing
      → system.parse (text_of system (merged client existing launch))
        ≡ some (object (merged client existing launch))
      → (register_mcp_server system w root client launch).0
        ≡ returned (registration system root client changed)
      → register_mcp_server system
          (register_mcp_server system w root client launch).1
          root
          client
          launch
        ≡ (
          returned (registration system root client false),
          (register_mcp_server system w root client launch).1,
        )
  register_mcp_server_twice w root client launch existing changed read reads_back ok =
      let path = config_path system root client in
      let after = merged client existing launch in
      elim (Bool-cases (
        same (system.stringify (object after)) (system.stringify (object (get_or existing end))))) [
          | inl e ↦ let first = same_text w root client launch existing read e in rw first first
          | inr e ↦ elim (written w root client launch existing read) [
            | inl t ↦ absurd (
                let clash : threw failed ≡ returned (registration system root client changed) =
                  sym t.0 ∙ ok in
                cc)
            | inr (inl u) ↦ absurd (let eq = u.2 in cc)
            | inr (inr v) ↦
                let moved = (register_mcp_server system w root client launch).1 in
                let there : content system moved path ≡ some (text_of system after) =
                  rw (v.1 path (temporary_name_apart system path), same_refl path) refl in
                let again = reads_text moved path after there reads_back in
                same_text moved root client launch (some after) again (
                  rw (merged_twice client existing launch)
                    (same_refl (system.stringify (object after))))
          ]
        ]
