-- ===== src/Vtg/Tests.antt =====
-- Runs of the drawables, and the theorems at a small table.
use prl_tools.Base.{
  delete, ℕ, ◌+◌, ◌%◌, ◌<◌, ◌≡◌, ◌≢◌, refl, true, false, none, some, [], ◌∷◌, arith, count, ◌==◌,
  if◌then◌else◌, pos, neg,
}
use prl_tools.Base.Errno.{einval}
use prl_tools.Vtg.{
  Entry, Vtg, vtg_hash_size, find_entry, bucket, DrawBdesc, Command, gl_command, create_insert,
  create_list, destroy_unlink, destroy_free, prl_vtg_create_drawable, prl_vtg_destroy_drawable,
  prl_vtg_clip_drawable, begin_request, prl_vtg_release_common, vtg_buffer_replace, take_entry,
  clip_entry, set_entry, vtg_buffer_get, get_buffer, vtg_buffer_put, put_buffer, replaced,
}
use prl_tools.Vtg.Refs.{total_refs}
use prl_tools.Vtg.Invariant.{Inv}
use prl_tools.Vtg.Window.{destroyed_in_creation}
use prl_tools.Vtg.Steps.{
  Reach, here, next, inserts, adds, clips, begins, reach-Inv, prl_vtg_release_common_lem,
  create_drawable-destroy_drawable,
}

abbrev hash : ℕ → ℕ
hash id = id % 16

abbrev empty : Vtg
empty = record {
  hashtable = λ _. [];
  hash_list = λ _. [];
  glctx_list = λ fp. if fp == 1 then 7 ∷ [] else [];
  buffers = λ _. none;
  adding = λ _. [];
  dropping = λ _. [];
  held = [];
  gl_destroys = [];
  fault = false;
}

empty-Inv : Inv hash empty
unfolding total_refs find_entry
empty-Inv = record {
  counted = λ b. record { counts = refl; alive = λ r e. ground arith };
  listed = λ id. record { unique = omega arith; lists = λ fp. refl; added = λ fp. omega arith };
  no_fault = refl;
}

hash_small : (id : ℕ) → hash id < vtg_hash_size
hash_small id = omega arith

-- File 1 registers drawable 5 and gives it the buffer at 100 before the registration is through, starts
-- a command with it and gives the drawable another one, at 200.
abbrev header : DrawBdesc
header = record { id = 5; bsize = 64; used = 0 }

abbrev command : Command
command = record { buffer_count = 4; inline_byte_count = 16; id = 5; sbuf = []; kernel_bufs = 0 }

abbrev inserted : Vtg
inserted = (create_insert hash true 1 5 empty).1

abbrev clipped : Vtg
clipped = (prl_vtg_clip_drawable hash (some (100, 101)) true true 1 header inserted).2

abbrev listed : Vtg
listed = create_list 1 5 clipped

abbrev begun : Vtg
begun = (begin_request hash gl_command command listed).2

abbrev clipped_again : Vtg
clipped_again = (prl_vtg_clip_drawable hash (some (200, 201)) true true 1 header begun).2

run : Reach hash empty clipped_again
unfolding create_insert prl_vtg_clip_drawable clip_entry begin_request vtg_buffer_replace take_entry
    find_entry set_entry vtg_buffer_get get_buffer vtg_buffer_put put_buffer replaced
run =
    next
      (next
        (next
          (next (next here (inserts true 1 5))
            (clips (some (100, 101)) true true 1 header (λ vb pbuf e. ground arith)))
          (adds 1 5 (omega arith)))
        (begins gl_command command))
      (clips (some (200, 201)) true true 1 header (λ vb pbuf e. ground arith))

prl_vtg_release_common_lem_example :
    let t = prl_vtg_release_common hash 1 clipped_again in
    (t.hash_list 1 ≡ [])
    × (t.glctx_list 1 ≡ [])
    × ((id : ℕ) (p : Entry) → find_entry id (bucket hash t id) ≡ some p → p.filp ≢ 1)
    × ((id : ℕ)
        → count id t.gl_destroys
          ≡ count id (clipped_again.glctx_list 1) + count id clipped_again.gl_destroys)
unfolding create_insert prl_vtg_clip_drawable clip_entry begin_request vtg_buffer_replace take_entry
    find_entry set_entry vtg_buffer_get get_buffer vtg_buffer_put put_buffer replaced delete
prl_vtg_release_common_lem_example =
    prl_vtg_release_common_lem hash hash_small 1 clipped_again refl refl
      (reach-Inv hash hash_small run empty-Inv)

create_drawable-destroy_drawable_example :
    let (ret, t) = prl_vtg_create_drawable hash true 1 5 empty in
    let (ret', u) = prl_vtg_destroy_drawable hash 1 5 t in
    (ret ≡ pos 0)
    × ((fp' : ℕ) → prl_vtg_create_drawable hash true fp' 5 t ≡ (neg einval, t))
    × ((fp' : ℕ) → fp' ≢ 1 → prl_vtg_destroy_drawable hash fp' 5 t ≡ (neg einval, t))
    × (ret' ≡ pos 0)
    × ((i : ℕ) → u.hashtable i ≡ [])
    × ((f : ℕ) → u.hash_list f ≡ [])
unfolding find_entry
create_drawable-destroy_drawable_example = create_drawable-destroy_drawable hash 1 5 empty refl

-- The first buffer lives on in the request alone, and goes with it.
buffer_replaced_in_flight :
    (clipped_again.held ≡ 100 ∷ [])
    × (clipped_again.buffers 100 ≡ some (record { refcnt = 1; id = 5; pbuf = 101; bsize = 64 }))
unfolding create_insert prl_vtg_clip_drawable clip_entry begin_request vtg_buffer_replace take_entry
    find_entry set_entry vtg_buffer_get get_buffer vtg_buffer_put put_buffer replaced
buffer_replaced_in_flight = (refl, refl)

destroyed_in_creation_example :
    let (ret, t) = create_insert hash true 1 5 empty in
    let (ret', old_vb, u) = destroy_unlink hash 1 5 t in
    let v = create_list 1 5 (destroy_free 1 5 old_vb u) in
    (ret ≡ pos 0)
    × (ret' ≡ pos 0)
    × (find_entry 5 (bucket hash v 5) ≡ none)
    × (v.hash_list 1 ≡ 5 ∷ [])
    × ((prl_vtg_release_common hash 1 v).fault ≡ true)
unfolding find_entry
destroyed_in_creation_example = destroyed_in_creation hash 1 5 empty refl refl
