-- ===== src/Mounts/Ready.antt =====
-- What ensureUpperdirReady has done when it returns without an error.
use pv_snapshotter.Base.{◌≢◌, ◌↔◌, inl, inr, ℕ, arith, Text, Result-cases}
use pv_snapshotter.Exec.{State, call}
use pv_snapshotter.Exec.Laws.{Returns}
use pv_snapshotter.Host.{Files}
use pv_snapshotter.Mounts.{parent_of, make_dirs, ensure_upperdir_ready, upper_of, work_of}
use pv_snapshotter.Mounts.Parent.{IsParent, IsParent-parent_of, IsParent-total}

module _ {W : Type 0} (files : Files W) where
  -- The calls of a successful run, in their order.
  pub record IsReady (root : Text) (s t : State W) : Type 0 where
    pub after_stat : State W
    pub after_root : State W
    pub after_parent : State W
    pub after_upper : State W
    pub root_dev : ℕ
    pub parent_dev : ℕ
    pub exists : Returns (call (files.stat root)) s tt after_stat
    pub root_read : Returns (call (files.device root)) after_stat root_dev after_root
    pub parent : Text
    pub is_parent : IsParent root parent
    pub parent_read : Returns (call (files.device parent)) after_root parent_dev after_parent
    pub mounted : root_dev ≢ parent_dev
    pub upper_made :
        Returns (call (files.mkdir_all (upper_of root) 0o755)) after_parent tt after_upper
    pub work_made : Returns (call (files.mkdir_all (work_of root) 0o755)) after_upper tt t

  ensure_sound :
      (root : Text) (s t : State W)
      → Returns (ensure_upperdir_ready files root) s tt t
      → IsReady root s t
  unfolding ensure_upperdir_ready make_dirs
  ensure_sound root s t h =
      let stat = call (files.stat root) s in
      let root_read = call (files.device root) stat.1 in
      let parent_read = call (files.device (parent_of root)) root_read.1 in
      let upper = call (files.mkdir_all (upper_of root) 0o755) parent_read.1 in
      elim (Result-cases root_read.0) [
        | inr (_, e) ↦ absurd (ground arith)
        | inl (d, e) ↦ elim (Result-cases parent_read.0) [
          | inr (_, f) ↦ absurd (ground arith)
          | inl (p, f) ↦ record {
            after_stat = stat.1;
            after_root = root_read.1;
            after_parent = parent_read.1;
            after_upper = upper.1;
            root_dev = d;
            parent_dev = p;
            exists = ground arith;
            root_read = ground arith;
            parent = parent_of root;
            is_parent = IsParent-total root;
            parent_read = ground arith;
            mounted = ground arith;
            upper_made = ground arith;
            work_made = ground arith;
          }
        ]
      ]

  ensure_complete :
      (root : Text) (s t : State W)
      → IsReady root s t
      → Returns (ensure_upperdir_ready files root) s tt t
  unfolding ensure_upperdir_ready make_dirs
  ensure_complete root s t r = ground (arith, IsParent-parent_of root r.parent r.is_parent)

  -- ensureUpperdirReady returns without an error exactly when the root exists, its device differs
  -- from that of the path that stands for its parent, and both `upper` and `work` were made below it, in this order, with
  -- mode 0755, and nothing else was called. That path is the directory of the root's last element,
  -- whatever slashes the root ends in, and "/" where that is empty; but for a root of one element
  -- with no slash before it, it is the root itself.
  pub ensure_upperdir_ready-IsReady :
      (root : Text) (s t : State W)
      → Returns (ensure_upperdir_ready files root) s tt t ↔ IsReady root s t
  ensure_upperdir_ready-IsReady root s t = (ensure_sound root s t, ensure_complete root s t)
