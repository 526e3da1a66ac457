-- ===== src/Host/UsageProjection/Mirror.antt =====
-- The store of src/host/usage-projection.ts never falls behind the maps in memory.
use dsh_liangxiang.Prelude.{
  String, ◌≡◌, refl, Option, none, some, [], if◌then◌else◌, or_else, map_option, is_some, Table,
  entry, put, erase, put_all, erase_all, merge_all, IsMap, entry-put, entry-erase, put-IsMap,
  erase-IsMap, merge_all-IsMap, merged_entry, entry-put_all, entry-merge_all, entry-erase_all,
}
use dsh_liangxiang.Host.UsageLedger.{SessionUsageWatermark, DailyUsageRecord}
use dsh_liangxiang.Host.UsageProjection.{
  UsageStore, UsageProjection, put_watermark, put_daily_usage, delete_daily_usage, merged_watermark,
  merged_daily, hydrate, discard_daily_totals,
}

-- Two maps with the same entries.
abbrev pub Agree {ℓ} : {A : Type ℓ} → Table A → Table A → Type ℓ
Agree t u = (key : String) → entry key t ≡ entry key u

abbrev pub Mirrors : UsageProjection → Option UsageStore → Type 0
Mirrors p none = Unit
Mirrors p (some s) = Agree p.watermarks s.watermarks × Agree p.daily s.daily

-- No key stands twice in memory, and the store, once there is one, has the entries of the memory.
pub record IsMirrored (p : UsageProjection) : Type 0 where
  pub marks : IsMap p.watermarks
  pub days : IsMap p.daily
  pub mirrors : Mirrors p p.sink

module _ {ℓ} {A : Type ℓ} where
  put-Agree : (k : String) (a : A) (t u : Table A) → Agree t u → Agree (put k a t) (put k a u)
  put-Agree k a t u agree key = rw (entry-put key k a t, entry-put key k a u, agree key) refl

  erase-Agree : (k : String) (t u : Table A) → Agree t u → Agree (erase k t) (erase k u)
  erase-Agree k t u agree key = rw (entry-erase key k t, entry-erase key k u, agree key) refl

  erase_all-Agree : (t u : Table A) → Agree t u → Agree [] (erase_all t u)
  erase_all-Agree t u agree key = rw (entry-erase_all key t u, ← agree key) (gone (entry key t))
    where
      gone : (o : Option A) → none ≡ (if is_some o then none else o)
      gone none = refl
      gone (some a) = refl

  -- What is merged from a store and put back into it agrees with it.
  put_all-Agree :
      (f : Option A → A → A) (stored own : Table A)
      → IsMap stored
      → IsMap own
      → Agree (merge_all f stored own) (put_all (merge_all f stored own) stored)
  put_all-Agree f stored own stored_map own_map key =
      rw (entry-put_all key (merge_all f stored own) stored (merge_all-IsMap f stored own own_map))
        (covered (entry key (merge_all f stored own)) (entry key stored) (entry key own)
          (entry-merge_all f key stored own stored_map))
    where
      covered : (m s o : Option A) → m ≡ merged_entry f s o → m ≡ or_else m s
      covered none none o e = refl
      covered none (some a) o e = cc e
      covered (some b) s o e = refl

pub put_watermark-IsMirrored :
    (p : UsageProjection) (session : String) (mark : SessionUsageWatermark)
    → IsMirrored p
    → IsMirrored (put_watermark p session mark)
unfolding put_watermark
put_watermark-IsMirrored p session mark m = record {
  marks = put-IsMap session mark p.watermarks m.marks;
  days = m.days;
  mirrors = by_sink p.sink m.mirrors;
}
  where
    by_sink :
        (o : Option UsageStore)
        → Mirrors p o
        → Mirrors
            (record p { watermarks = put session mark p.watermarks })
            (map_option
              (λ (s : UsageStore). record s { watermarks = put session mark s.watermarks })
              o)
    by_sink none h = tt
    by_sink (some s) h = (put-Agree session mark p.watermarks s.watermarks h.0, h.1)

pub put_daily_usage-IsMirrored :
    (p : UsageProjection) (date : String) (day : DailyUsageRecord)
    → IsMirrored p
    → IsMirrored (put_daily_usage p date day)
unfolding put_daily_usage
put_daily_usage-IsMirrored p date day m = record {
  marks = m.marks;
  days = put-IsMap date day p.daily m.days;
  mirrors = by_sink p.sink m.mirrors;
}
  where
    by_sink :
        (o : Option UsageStore)
        → Mirrors p o
        → Mirrors
            (record p { daily = put date day p.daily })
            (map_option (λ (s : UsageStore). record s { daily = put date day s.daily }) o)
    by_sink none h = tt
    by_sink (some s) h = (h.0, put-Agree date day p.daily s.daily h.1)

pub delete_daily_usage-IsMirrored :
    (p : UsageProjection) (date : String) → IsMirrored p → IsMirrored (delete_daily_usage p date)
unfolding delete_daily_usage
delete_daily_usage-IsMirrored p date m = record {
  marks = m.marks;
  days = erase-IsMap date p.daily m.days;
  mirrors = by_sink p.sink m.mirrors;
}
  where
    by_sink :
        (o : Option UsageStore)
        → Mirrors p o
        → Mirrors
            (record p { daily = erase date p.daily })
            (map_option (λ (s : UsageStore). record s { daily = erase date s.daily }) o)
    by_sink none h = tt
    by_sink (some s) h = (h.0, erase-Agree date p.daily s.daily h.1)

pub discard_daily_totals-IsMirrored :
    (p : UsageProjection) → IsMirrored p → IsMirrored (discard_daily_totals p)
unfolding discard_daily_totals
discard_daily_totals-IsMirrored p m = record {
  marks = m.marks;
  days = tt;
  mirrors = by_sink p.sink m.mirrors;
}
  where
    by_sink :
        (o : Option UsageStore)
        → Mirrors p o
        → Mirrors
            (record p { daily = [] })
            (map_option (λ (s : UsageStore). record s { daily = erase_all p.daily s.daily }) o)
    by_sink none h = tt
    by_sink (some s) h = (h.0, erase_all-Agree p.daily s.daily h.1)

-- The store's own maps have no key twice.
abbrev pub IsStore : UsageStore → Type 0
IsStore s = IsMap s.watermarks × IsMap s.daily

pub hydrate-IsMirrored :
    (p : UsageProjection) (store : UsageStore)
    → IsStore store
    → IsMirrored p
    → IsMirrored (hydrate p store)
unfolding hydrate
hydrate-IsMirrored p store h m = record {
  marks = merge_all-IsMap merged_watermark store.watermarks p.watermarks m.marks;
  days = merge_all-IsMap merged_daily store.daily p.daily m.days;
  mirrors = (
    put_all-Agree merged_watermark store.watermarks p.watermarks h.0 m.marks,
    put_all-Agree merged_daily store.daily p.daily h.1 m.days,
  );
}
