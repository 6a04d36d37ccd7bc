-- ===== src/FileStore/View/Append.antt =====
-- FileStore.h: what an appended record leaves of the items that the store had.
use micro_store.Base.{
  ℕ, ◌+◌, ◌<◌, ◌^◌, ◌≡◌, ◌≢◌, ap, sym, ◌∙◌, some, [], ◌++◌, arith, length, Bool-cases, inl, inr,
  bytes_eq, bytes_eq_iff, length-append,
}
use mathlib.Core.List.{append-nil}
use mathlib.Core.Option.{some-injective}
use micro_store.FileStore.Files.{FileSystem}
use micro_store.FileStore.Names.{segment_name}
use micro_store.FileStore.Index.{IndexMap}
use micro_store.FileStore.Scan.Log.{Logged, record_bytes}
use micro_store.FileStore.State.{FileStore}
use micro_store.FileStore.Operations.Ready.{IsReady}
use micro_store.FileStore.Operations.Stored.{Appended}
use micro_store.FileStore.IndexFile.{IndexEntry}
use micro_store.FileStore.View.{Contents, Extends, Models}

-- A store between two operations whose index file, if it is open, has no segment's name.
pub record IsOpen {D : Type 0} (fs : FileSystem D) (s : FileStore D) : Type 0 where
  pub ready : IsReady fs s
  pub apart : (seg : ℕ) → s.index_file ≢ some (segment_name s.base_prefix seg)

-- The index and the time to live have no part in that.
pub IsOpen-fields :
    {D : Type 0} (fs : FileSystem D) (s : FileStore D) (index : IndexMap) (policy : ℕ)
    → IsOpen fs s
    → IsOpen fs (record s { index = index; policy_ttl_secs = policy })
IsOpen-fields fs s index policy o =
    let r = o.ready in
    record {
      ready = record {
        mounted = r.mounted;
        no_buffer = r.no_buffer;
        active = r.active;
        bytes = r.bytes;
        on_disk = r.on_disk;
        offset = r.offset;
        segment_small = r.segment_small;
        offset_small = r.offset_small;
        index_apart = r.index_apart;
      };
      apart = o.apart;
    }

module _ {D : Type 0} (fs : FileSystem D) (r t : FileStore D) (opened : IsOpen fs r) (g : Logged)
    (index : IndexMap) (offset : ℕ) (e : IndexEntry)
    (h : Appended fs r opened.ready g index offset e t) where
  pub Appended-Extends : Extends fs r.base_prefix r.disk t.disk
  Appended-Extends seg c there =
      let p = segment_name r.base_prefix r.current_segment in
      let q = segment_name r.base_prefix seg in
      elim (Bool-cases (bytes_eq p q)) [
        | inl same ↦
            let e = (bytes_eq_iff p q).0 same in
            let content : opened.ready.bytes ≡ c =
              some-injective opened.ready.bytes c
                (sym opened.ready.on_disk ∙ (ap (fs.open_read r.disk) e ∙ there)) in
            (
              record_bytes g,
              ap (fs.open_read t.disk) (sym e)
                  ∙ (h.on_disk ∙ ap (λ b. some (b ++ record_bytes g)) content),
            )
        | inr other ↦ (
          [],
          h.others q (opened.apart seg) (λ e. ground (arith, bytes_eq_iff p q))
              ∙ (there ∙ ap some (sym (append-nil c))),
        )
      ]

  -- The store is ready again, at the end of the longer segment.
  pub Appended-IsOpen :
      offset ≡ length opened.ready.bytes + length (record_bytes g) → offset < 2 ^ 24 → IsOpen fs t
  Appended-IsOpen at small =
      let name : segment_name t.base_prefix t.current_segment
          ≡ segment_name r.base_prefix r.current_segment =
        ap (λ (x : FileStore D). segment_name x.base_prefix x.current_segment) h.fields in
      let file : t.index_file ≡ r.index_file = ap (λ (x : FileStore D). x.index_file) h.fields in
      let base : t.base_prefix ≡ r.base_prefix = ap (λ (x : FileStore D). x.base_prefix) h.fields in
      let bytes = opened.ready.bytes ++ record_bytes g in
      let end : t.current_offset ≡ offset = ap (λ (x : FileStore D). x.current_offset) h.fields in
      let apart : (seg : ℕ) → t.index_file ≢ some (segment_name t.base_prefix seg) =
        λ seg e. opened.apart seg (sym file ∙ (e ∙ ap (λ b. some (segment_name b seg)) base)) in
      record {
        ready = record {
          mounted = ap (λ (x : FileStore D). x.mounted) h.fields ∙ opened.ready.mounted;
          no_buffer = ap (λ (x : FileStore D). x.write_buf) h.fields;
          active =
              ap (λ (x : FileStore D). x.active_file) h.fields
              ∙ (opened.ready.active ∙ ap some (sym name));
          bytes = bytes;
          on_disk = ap (fs.open_read t.disk) name ∙ h.on_disk;
          offset = end ∙ (at ∙ sym (length-append opened.ready.bytes (record_bytes g)));
          segment_small = omega (
            arith,
            ap (λ (x : FileStore D). x.current_segment) h.fields,
            opened.ready.segment_small,
          );
          offset_small = omega (arith, end);
          index_apart = apart t.current_segment;
        };
        apart = apart;
      }

-- The store is between two operations and has the time to live and the items.
pub record Represents {D : Type 0} (fs : FileSystem D) (s : FileStore D) (policy : ℕ) (m : Contents)
    : Type 0 where
  pub policy_ttl : s.policy_ttl_secs ≡ policy
  pub opened : IsOpen fs s
  pub items : Models fs s.base_prefix s.disk s.index m
