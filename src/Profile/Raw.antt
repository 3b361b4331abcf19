-- ===== src/Profile/Raw.antt =====
-- crates/helium-sync-profile/src/lib.rs: `convert_node`, which reads a node of Chromium's bookmark
-- file, and what `chromium_bookmarks_json` writes for a node. JSON itself is the serde crates'.
use helium_sync.Prelude.{
  ◌≡◌, refl, String, Option, none, some, Result, ok, err, ◌>>=◌, ok_or, str_eq, if◌then◌else◌,
}
use helium_sync.Profile.Node.{BookmarkNode, BookmarkRoot, Nodes, folder, url, nil, cons}
use helium_sync.Profile.Errors.{ProfileError, unsupported_node_type}

-- `RawNode`; the vector of children is a type of the block.
mutual
  pub data RawNode : Type 0 where
    -- id, name, type, url, date_added, date_modified, children
    raw_node :
        String
        → String
        → String
        → Option String
        → Option String
        → Option String
        → RawNodes
        → RawNode

  pub data RawNodes : Type 0 where
    raw_nil : RawNodes
    raw_cons : RawNode → RawNodes → RawNodes

unfoldable mutual
  pub convert_node : RawNode → Result ProfileError BookmarkNode
  convert_node (raw_node id name kind target added modified children) =
      let converted = convert_nodes children in
      if str_eq kind "folder"
      then (converted >>= λ xs. ok (folder id name added modified xs))
      else if str_eq kind "url"
      then (ok_or target (unsupported_node_type "url node without URL") >>= λ u.
          ok (url id name u added))
      else err (unsupported_node_type kind)

  -- `into_iter().map(convert_node).collect::<Result<Vec<_>, _>>()`
  pub convert_nodes : RawNodes → Result ProfileError Nodes
  convert_nodes raw_nil = ok nil
  convert_nodes (raw_cons x xs) =
      convert_node x >>= λ node. convert_nodes xs >>= λ nodes. ok (cons node nodes)

-- The object that the derived `Serialize` of `BookmarkNode` writes, with its tag `type`, as the
-- derived `Deserialize` of `RawNode` reads it: a missing field is absent, or empty for `children`.
unfoldable mutual
  pub raw_of : BookmarkNode → RawNode
  raw_of (folder id name added modified xs) =
      raw_node id name "folder" none added modified (raws_of xs)
  raw_of (url id name target added) = raw_node id name "url" (some target) added none raw_nil

  pub raws_of : Nodes → RawNodes
  raws_of nil = raw_nil
  raws_of (cons x xs) = raw_cons (raw_of x) (raws_of xs)

-- one entry of `roots`, as `read_bookmarks` reads it and as `chromium_bookmarks_json` writes it
unfoldable pub convert_root : String × RawNode → Result ProfileError BookmarkRoot
convert_root (key, raw) = convert_node raw >>= λ node. ok (record { key = key; node = node })

unfoldable pub raw_root : BookmarkRoot → String × RawNode
raw_root root = (root.key, raw_of root.node)

mutual
  unfolding convert_node convert_nodes raw_of raws_of

  node_read_back : (node : BookmarkNode) → convert_node (raw_of node) ≡ ok node
  node_read_back (folder id name added modified xs) = rw (nodes_read_back xs)
  node_read_back (url id name target added) = refl

  nodes_read_back : (nodes : Nodes) → convert_nodes (raws_of nodes) ≡ ok nodes
  nodes_read_back nil = refl
  nodes_read_back (cons x xs) = rw (node_read_back x, nodes_read_back xs)

-- A root of a bookmark tree that is written to a bookmark file is read back as it was.
pub convert_root-raw_root : (root : BookmarkRoot) → convert_root (raw_root root) ≡ ok root
unfolding convert_root raw_root
convert_root-raw_root root = rw (node_read_back root.node)
