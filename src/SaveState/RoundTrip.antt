-- ===== src/SaveState/RoundTrip.antt =====
-- A saved buffer loads, and restores what was saved.
use blyt_planning.Prelude.{
  ℕ, ◌+◌, ◌^◌, ◌≤◌, ◌<◌, true, some, List, [], ◌∷◌, ◌++◌, ◌≡◌, refl, sym, ap, ap₂, ◌∙◌, arith,
  Bytes, length, drop, length-drop, All, write_at, le_bytes, le_value-le_bytes,
}
use blyt_planning.Tracked.{Slot}
use blyt_planning.SaveState.{
  Header, header_bytes, read_header, header_of, header_size, Runtime, Saved, save_state_save,
  save_state_load, load_body, write_save, layout_hash_of, save_regions,
}
use blyt_planning.SaveState.Regions.{
  sizes, body, saved_slots, Saves, SameRegions, capacity-eq, save_regions_lem, load_regions_lem,
  write_at-split,
}
use blyt_planning.SaveState.Gates.{Accepted, load_accepts}
use blyt_planning.SaveState.Init.{
  WellCached, layout_hash_of-SameRegions, layout_hash_of-lt, ensure_init_lem,
}

-- The header's fields fit their widths.
record IsHeader (h : Header) : Type 0 where
  magic_fits : h.magic < 2 ^ 32
  version_fits : h.version < 2 ^ 32
  hash_fits : h.layout_hash < 2 ^ 64
  frame_fits : h.frame < 2 ^ 32
  total_fits : h.total_size < 2 ^ 32

-- The packed header is read back from the start of a buffer.
read_header-header_bytes :
    (h : Header) (rest : Bytes) → IsHeader h → read_header (header_bytes h ++ rest) ≡ h
read_header-header_bytes h rest v = λ i. record {
  magic = le_value-le_bytes 4 h.magic tail_magic v.magic_fits i;
  version = le_value-le_bytes 4 h.version tail_version v.version_fits i;
  layout_hash = le_value-le_bytes 8 h.layout_hash tail_hash v.hash_fits i;
  frame = le_value-le_bytes 4 h.frame tail_frame v.frame_fits i;
  total_size = le_value-le_bytes 4 h.total_size rest v.total_fits i;
}
  where
    tail_frame : Bytes
    tail_frame = le_bytes 4 h.total_size ++ rest

    tail_hash : Bytes
    tail_hash = le_bytes 4 h.frame ++ tail_frame

    tail_version : Bytes
    tail_version = le_bytes 8 h.layout_hash ++ tail_hash

    tail_magic : Bytes
    tail_magic = le_bytes 4 h.version ++ tail_version

length-header_bytes : (h : Header) → length (header_bytes h) ≡ header_size
length-header_bytes h = refl

-- The buffer that a save leaves: the header, the regions' bytes, and what stood behind them.
module _ (buf : Bytes) (frame : ℕ) (rt : Runtime) (a : All Saves rt.slots)
    (fits : header_size + sizes rt.slots < 2 ^ 32)
    (room : header_size + sizes rt.slots ≤ length buf) where
  headed :
      write_at buf 0 (header_bytes (header_of frame rt))
      ≡ header_bytes (header_of frame rt) ++ drop header_size buf
  headed = write_at-split [] buf (header_bytes (header_of frame rt)) 0 refl (omega arith)

  write_save_lem : write_save buf frame rt ≡ record {
    written = header_size + sizes rt.slots;
    buf =
        header_bytes (header_of frame rt)
        ++ (body rt.slots ++ drop (sizes rt.slots) (drop header_size buf));
    runtime = record rt { slots = saved_slots rt.slots };
  }
  write_save_lem =
      ap₂ (λ n q. saved_of n q) (capacity-eq rt.slots fits)
        (ap (save_regions rt.slots header_size) headed
          ∙ save_regions_lem rt.slots (header_bytes (header_of frame rt)) (drop header_size buf)
              header_size a refl (omega (arith, length-drop header_size buf)))
    where
      saved_of : ℕ → Bytes × List Slot → Saved
      saved_of n q = record { written = n; buf = q.0; runtime = record rt { slots = q.1 } }

-- The loop restores the saved storages from such a buffer.
load_body_lem :
    (hd : Header) (rest : Bytes) (slots : List Slot) (rt : Runtime) (end : ℕ)
    → All Saves slots
    → SameRegions slots rt.slots
    → end ≡ header_size + sizes slots
    → load_body (header_bytes hd ++ (body slots ++ rest)) end rt
      ≡ (true, record rt { slots = saved_slots slots })
load_body_lem hd rest slots rt end a same e =
    ap (λ q. (q.0, record rt { slots = q.1 }))
      (load_regions_lem slots rt.slots (header_bytes hd) rest header_size end a same refl e)

sizes-SameRegions : (ss ts : List Slot) → SameRegions ss ts → sizes ts ≡ sizes ss
sizes-SameRegions [] [] r = refl
sizes-SameRegions [] (t ∷ ts) r = absurd r
sizes-SameRegions (s ∷ ss) [] r = absurd r
sizes-SameRegions (s ∷ ss) (t ∷ ts) (r, rs) =
    ap₂ ◌+◌ (ap (λ g. g.size) (sym r)) (sizes-SameRegions ss ts rs)

-- Let every region of the registry keep the save contract, the hashes cached on both sides be
-- right if any is, the layout description fit its scratch buffer, the header and the regions take
-- less than 2 ^ 32 bytes, the buffer have room for them, and the frame fit 32 bits. Then a save
-- returns and writes exactly that many bytes; and at every size from that on, the buffer loads
-- over any storages of the same regions, and leaves the runtime as the save left its own.
pub load-save :
    (buf : Bytes) (cap frame : ℕ) (rt other : Runtime) (hash : ℕ)
    → All Saves rt.slots
    → SameRegions rt.slots other.slots
    → WellCached rt
    → WellCached other
    → layout_hash_of rt.slots ≡ some hash
    → header_size + sizes rt.slots < 2 ^ 32
    → header_size + sizes rt.slots ≤ cap
    → cap ≤ length buf
    → frame < 2 ^ 32
    → (saved : Saved) × (save_state_save buf cap frame rt ≡ some saved)
      × (saved.written ≡ header_size + sizes rt.slots)
      × ((size : ℕ)
          → saved.written ≤ size
          → save_state_load saved.buf size other ≡ some (true, saved.runtime))
unfolding save_state_save
load-save buf cap frame rt other hash a same w w' e fits room len fr = (
  saved,
  rw (ensure_init_lem rt hash w e) (ground (arith, capacity-eq rt.slots fits)),
  ap (λ s. s.written) written,
  λ size big.
      load_accepts saved.buf size other hash w'
        (layout_hash_of-SameRegions rt.slots other.slots same ∙ e) (accepted size big)
      ∙ ap (λ n. some (load_body saved.buf n other')) total
      ∙ ap (λ b. some (load_body b (header_size + sizes rt.slots) other')) (ap (λ s. s.buf) written)
      ∙ ap some (load_body_lem hd rest rt.slots other' (header_size + sizes rt.slots) a same refl)
      ∙ ap (λ s. some (true, s.runtime)) (sym written),
)
  where
    rt' : Runtime
    rt' = record rt { layout_hash = hash; initialized = true }

    saved : Saved
    saved = write_save buf frame rt'

    written : saved ≡ record {
      written = header_size + sizes rt.slots;
      buf =
          header_bytes (header_of frame rt')
          ++ (body rt.slots ++ drop (sizes rt.slots) (drop header_size buf));
      runtime = record rt' { slots = saved_slots rt.slots };
    }
    written = write_save_lem buf frame rt' a fits (omega arith)

    other' : Runtime
    other' = record other { layout_hash = hash; initialized = true }

    hd : Header
    hd = header_of frame rt'

    rest : Bytes
    rest = drop (sizes rt.slots) (drop header_size buf)

    header_read : read_header saved.buf ≡ hd
    header_read =
        ap (λ s. read_header s.buf) written
        ∙ read_header-header_bytes hd (body rt.slots ++ rest) (record {
          magic_fits = omega arith;
          version_fits = omega arith;
          hash_fits = layout_hash_of-lt rt.slots e;
          frame_fits = fr;
          total_fits = omega (arith, capacity-eq rt.slots fits);
        })

    total : (read_header saved.buf).total_size ≡ header_size + sizes rt.slots
    total = ap (λ h. h.total_size) header_read ∙ capacity-eq rt.slots fits

    accepted : (size : ℕ) → saved.written ≤ size → Accepted saved.buf size hash other.slots
    accepted size big = record {
      header_fits = omega (arith, capacity-eq rt.slots fits);
      magic_right = ap (λ h. h.magic) header_read;
      version_right = ap (λ h. h.version) header_read;
      hash_right = ap (λ h. h.layout_hash) header_read;
      total_fits = omega (arith, total, capacity-eq rt.slots fits);
      total_right =
          total
          ∙ sym (
              capacity-eq other.slots (omega (arith, sizes-SameRegions rt.slots other.slots same))
              ∙ ap (λ n. header_size + n) (sizes-SameRegions rt.slots other.slots same));
    }
