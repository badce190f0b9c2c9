-- ===== src/Calls/Files.antt =====
-- The system calls on file attributes, and what they do to the store and to the agents.
use os_agent.Base.{ℕ, Bool, true, false, ◌||◌, List, ltb, ◌==◌, if◌then◌else◌, not}
use os_agent.Base.Bytes.{read_user_bytes}
use os_agent.Base.Results.{ISize, pos, negsuc}
use os_agent.Attr.{FileAttrStore, add_tag, remove_tag, remove_file}
use os_agent.Attr.Update.{IsConsistent, add_tag-IsConsistent}
use os_agent.Attr.Removal.{remove_tag-IsConsistent}
use os_agent.Attr.Removal.File.{remove_file-IsConsistent}
use os_agent.Task.Invariant.{IsValid}
use os_agent.Events.{broadcast_file_event}
use os_agent.Events.Beat.{broadcast_file_event-IsVisited}
use os_agent.Calls.{System, copy_or_zero}
use os_agent.Calls.Utf8.{is_utf8}

-- The test of both calls on their arguments.
unfoldable pub bad_lengths : ℕ → ℕ → ℕ → Bool
bad_lengths name_ptr name_len tag_len =
    (name_ptr == 0) || ((name_len == 0) || (ltb 256 name_len || ltb 256 tag_len))

abbrev pub broadcast : System → List ℕ → System
broadcast s all = record s { kernel = broadcast_file_event s.kernel all }

-- `all` is what `snapshot_all_processes` returns.
unfoldable pub sys_file_attr_set : System → ℕ → List ℕ → ℕ → ℕ → ℕ → ℕ → ISize × System
sys_file_attr_set s me all name_ptr name_len tag_ptr tag_len =
    let name = read_user_bytes (s.memories me) name_ptr name_len in
    let tag = copy_or_zero (s.memories me) tag_ptr tag_len in
    if bad_lengths name_ptr name_len tag_len
    then (negsuc 0, s)
    else if not (is_utf8 name)
    then (negsuc 6, s)
    else if not (is_utf8 tag)
    then (negsuc 6, s)
    else (pos 0, broadcast (record s { store = add_tag s.store name tag }) all)

-- The end of `sys_file_attr_del`: an event only if something was removed.
unfoldable pub removed : System → List ℕ → Bool × FileAttrStore → ISize × System
removed s all (true, store) = (pos 1, broadcast (record s { store = store }) all)
removed s all (false, store) = (pos 0, record s { store = store })

unfoldable pub sys_file_attr_del : System → ℕ → List ℕ → ℕ → ℕ → ℕ → ℕ → ISize × System
sys_file_attr_del s me all name_ptr name_len tag_ptr tag_len =
    let name = read_user_bytes (s.memories me) name_ptr name_len in
    let tag = read_user_bytes (s.memories me) tag_ptr tag_len in
    if bad_lengths name_ptr name_len tag_len
    then (negsuc 0, s)
    else if not (is_utf8 name)
    then (negsuc 6, s)
    else if tag_len == 0
    then removed s all (remove_file s.store name)
    else if not (is_utf8 tag)
    then (negsuc 6, s)
    else removed s all (remove_tag s.store name tag)

broadcast-IsValid :
    (s : System) (all : List ℕ) → IsValid s.kernel → IsValid (broadcast s all).kernel
unfolding IsValid
broadcast-IsValid s all v q = (broadcast_file_event-IsVisited s.kernel all q v).placed

-- The store is consistent and the kernel valid.
unfoldable pub IsSound : System → Type 0
IsSound s = IsConsistent s.store × IsValid s.kernel

IsSound-if :
    (b : Bool) (x y : ISize × System) → IsSound x.1 → IsSound y.1 → IsSound (if b then x else y).1
IsSound-if true x y hx hy = hx
IsSound-if false x y hx hy = hy

removed-IsSound :
    (s : System) (all : List ℕ) (r : Bool × FileAttrStore)
    → IsConsistent r.1
    → IsValid s.kernel
    → IsSound (removed s all r).1
unfolding removed IsSound
removed-IsSound s all (true, store) c v = (c, broadcast-IsValid (record s { store = store }) all v)
removed-IsSound s all (false, store) c v = (c, v)

-- Whatever the arguments are and whichever way the call ends, setting a file's tag keeps the indices
-- of the store in step with the files, and every task where its status says.
pub sys_file_attr_set-IsSound :
    (s : System) (me : ℕ) (all : List ℕ) (name_ptr name_len tag_ptr tag_len : ℕ)
    → IsSound s
    → IsSound (sys_file_attr_set s me all name_ptr name_len tag_ptr tag_len).1
unfolding sys_file_attr_set IsSound
sys_file_attr_set-IsSound s me all name_ptr name_len tag_ptr tag_len h =
    let name = read_user_bytes (s.memories me) name_ptr name_len in
    let tag = copy_or_zero (s.memories me) tag_ptr tag_len in
    IsSound-if (bad_lengths name_ptr name_len tag_len) _ _ h (
      IsSound-if (not (is_utf8 name)) _ _ h (
        IsSound-if (not (is_utf8 tag)) _ _ h (
          add_tag-IsConsistent s.store name tag h.0,
          broadcast-IsValid (record s { store = add_tag s.store name tag }) all h.1,
        )))

-- The same of deleting a file's tag or the whole file.
pub sys_file_attr_del-IsSound :
    (s : System) (me : ℕ) (all : List ℕ) (name_ptr name_len tag_ptr tag_len : ℕ)
    → IsSound s
    → IsSound (sys_file_attr_del s me all name_ptr name_len tag_ptr tag_len).1
unfolding sys_file_attr_del IsSound
sys_file_attr_del-IsSound s me all name_ptr name_len tag_ptr tag_len h =
    let name = read_user_bytes (s.memories me) name_ptr name_len in
    let tag = read_user_bytes (s.memories me) tag_ptr tag_len in
    IsSound-if (bad_lengths name_ptr name_len tag_len) _ _ h (
      IsSound-if (not (is_utf8 name)) _ _ h (
        IsSound-if (tag_len == 0) _ _
          (removed-IsSound s all (remove_file s.store name)
            (remove_file-IsConsistent s.store name h.0) h.1)
          (IsSound-if (not (is_utf8 tag)) _ _ h (
            removed-IsSound s all (remove_tag s.store name tag)
              (remove_tag-IsConsistent s.store name tag h.0) h.1))))
