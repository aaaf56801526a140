-- ===== src/Engine/Mcp/Manager/Surface.antt =====
-- app/engine/mcp/manager.py: what a connection offers, what the agents get, and references.
use agentstrata.Engine.Mcp.Filtering.{apply_tool_filter}
use agentstrata.Engine.Mcp.Filtering.Names.{elem-apply_tool_filter}
use agentstrata.Engine.Mcp.Manager.{
  ServerHandle, agent_tools, attach_tools, attached, close_toolset, connect_succeeded, disconnected,
  lookup_tool, offered, recompute_finals, release, rename_tools,
}
use agentstrata.Prelude.{
  List, [], arith, false, length, length-take, none, refl, some, suc, take, true, zero, ℕ, ◌-◌, ◌<◌,
  ◌∷◌, ◌≡◌, ◌≢◌, ◌≤◌, ◌⊎◌,
}
use agentstrata.Text.{Text, elem}

elem-take : (x : Text) (n : ℕ) (xs : List Text) → elem x (take n xs) ≡ true → elem x xs ≡ true
unfolding elem
elem-take x zero xs h = absurd (ground arith)
elem-take x (suc n) [] h = h
elem-take x (suc n) (y ∷ xs) h = ground (arith, elem-take x n xs)

-- A server offers at most `max_tools` names, each of them a tool of its list that is not denied
-- and, if there is an allow list, allowed.
pub offered-IsWithin :
    (h : ServerHandle) (raw_names : List Text) (name : Text)
    → (length (offered h raw_names) ≤ h.max_tools)
      × ((elem name (offered h raw_names) ≡ false)
          ⊎ ((elem name raw_names ≡ true)
              × (elem name h.tool_filter_deny ≡ false)
              × ((length h.tool_filter_allow ≡ 0) ⊎ (elem name h.tool_filter_allow ≡ true))))
unfolding offered
offered-IsWithin h raw_names name =
    let filtered = apply_tool_filter raw_names h.tool_filter_allow h.tool_filter_deny in
    (
      ground (arith, length-take h.max_tools filtered),
      ground (
        arith,
        elem-take name h.max_tools filtered,
        elem-apply_tool_filter name raw_names h.tool_filter_allow h.tool_filter_deny,
      ),
    )

-- A release of a handle with a toolset does one of three things: without a reference nothing
-- changes; the last one closes the toolset, drops the tools and disconnects; any other gives back
-- one reference and changes nothing else.
pub release-cases :
    (h : ServerHandle)
    → h.toolset ≡ true
    → ((h.ref_count ≡ 0) × (release h ≡ h))
      ⊎ ((h.ref_count ≡ 1)
          × (release h
              ≡ record h { tools = []; toolset = false; state = disconnected; ref_count = 0 }))
      ⊎ ((1 < h.ref_count) × (release h ≡ record h { ref_count = h.ref_count - 1 }))
unfolding release close_toolset
release-cases h open_ = ground arith

module _ (h : ServerHandle) (denied kept : Text) (no_allow : h.tool_filter_allow ≡ [])
    (deny : h.tool_filter_deny ≡ denied ∷ []) (room : 0 < h.max_tools) (ne : denied ≢ kept) where
  offered-denied : offered h (denied ∷ kept ∷ []) ≡ kept ∷ []
  unfolding offered apply_tool_filter elem
  offered-denied = rw (no_allow, deny) (ground arith)

  abbrev renamed : ServerHandle
  renamed = record (connect_succeeded (denied ∷ kept ∷ []) h) { final_names = kept ∷ [] }

  recompute-denied :
      recompute_finals (connect_succeeded (denied ∷ kept ∷ []) h ∷ []) ≡ some (renamed ∷ [])
  unfolding recompute_finals connect_succeeded
  recompute-denied = rw offered-denied refl

  tools-denied :
      (rename_tools renamed).tools
      ≡ record { served = denied; name = kept } ∷ record { served = kept; name = kept } ∷ []
  unfolding rename_tools connect_succeeded
  tools-denied = ground arith

  attaches :
      attach_tools
        (connect_succeeded (denied ∷ kept ∷ []) h)
        (connect_succeeded (denied ∷ kept ∷ []) h ∷ [])
      ≡ some (rename_tools renamed ∷ [])
  unfolding attach_tools connect_succeeded
  attaches = ground (arith, recompute-denied)

  looks_up : lookup_tool kept (rename_tools renamed ∷ []) ≡ some (h.name, denied)
  unfolding lookup_tool connect_succeeded rename_tools
  looks_up = ground arith

  sees :
      agent_tools none (rename_tools renamed ∷ [])
      ≡ record { served = denied; name = kept } ∷ record { served = kept; name = kept } ∷ []
  unfolding agent_tools attached rename_tools connect_succeeded
  sees = ground (arith, tools-denied)

  -- Take a server with no allow list and one denied tool that lists exactly the denied tool and a
  -- different one, in this order, with room for a tool. Once it is connected and attached alone, the
  -- final name of the offered tool looks up the denied one, and an agent that may see all servers
  -- gets both tools under that name.
  pub attach-denied :
      (out : List ServerHandle) × (attach_tools
          (connect_succeeded (denied ∷ kept ∷ []) h)
          (connect_succeeded (denied ∷ kept ∷ []) h ∷ [])
        ≡ some out)
      × (lookup_tool kept out ≡ some (h.name, denied))
      × (agent_tools none out
          ≡ record { served = denied; name = kept } ∷ record { served = kept; name = kept } ∷ [])
  attach-denied = (rename_tools renamed ∷ [], attaches, looks_up, sees)
