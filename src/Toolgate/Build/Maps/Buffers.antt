-- ===== src/Toolgate/Build/Maps/Buffers.antt =====
-- `tg_req_map_kernel_pages` and the loop of `tg_req_create` over the buffers, where they succeed.
use prl_tools.Base.{
  ap, ◌∙◌, ℕ, zero, suc, ◌+◌, ◌%◌, ◌*◌, ◌^◌, ◌≤◌, ◌≡◌, refl, Bool, true, false, Option, none, some,
  List, [], ◌∷◌, ◌==◌, if◌then◌else◌, count, arith, Bool-cases, inl, inr, length,
}
use prl_tools.Toolgate.Wire.{TgBuffer, span_pages}
use prl_tools.Toolgate.Build.{
  Build, Kernel, write, map_kernel_loop, map_kernel_end, tg_req_map_kernel_pages, map_buffer,
  map_buffers, prltg_buf_is_kernelspace, tg_req_map_user_pages,
}
use prl_tools.Toolgate.Build.Unmap.{in_words, in_buffers, pages_of}
use prl_tools.Toolgate.Build.Maps.{Maps, Adds, Maps-first, in_words_frame}
use prl_tools.Toolgate.Build.Maps.User.{Added, tg_req_map_user_pages-Adds}

-- What a result of the loop of `tg_req_map_kernel_pages` over `n` pages says if it succeeds.
abbrev KernelDone : ℕ → ℕ → Build → Option ℕ × Build → Type 0
KernelDone n i b (failed, c) =
    failed ≡ none → (c.up_list ≡ b.up_list) × Maps i (λ x. in_words x c.words i n) (λ x. 0) b c

map_kernel_loop-done :
    (k : Kernel) (n at buffer i : ℕ) (b : Build)
    → KernelDone n i b (map_kernel_loop k n at buffer i b)
unfolding map_kernel_loop
map_kernel_loop-done k zero at buffer i b = λ e. (
  refl,
  record {
    mapped = λ x. omega arith;
    pinned = λ x. omega arith;
    fault = refl;
    frame = λ j h. refl;
  },
)
map_kernel_loop-done k (suc n) at buffer i b =
    let addr = λ (page : ℕ). k.map_page b page in
    let c = λ (page : ℕ). write i (addr page) (record b { mapped = addr page ∷ b.mapped }) in
    let rest = λ (page : ℕ). map_kernel_loop k n (at + 1) (buffer + 4096) (i + 1) (c page) in
    elim (k.kernel_page buffer)
      as (λ valid. KernelDone (suc n) i b (elim valid [
        | none ↦ (some at, b)
        | some page ↦ if addr page == 0 then (some at, b) else rest page
      ])) [
        | none ↦ λ e. absurd (cc e)
        | some page ↦
            elim (addr page == 0)
              as (λ t. KernelDone (suc n) i b (if t then (some at, b) else rest page)) [
                | true ↦ λ e. absurd (cc e)
                | false ↦ λ e.
                    let (l, m) =
                      map_kernel_loop-done k n (at + 1) (buffer + 4096) (i + 1) (c page) e in
                    (
                      l,
                      Maps-first i n (addr page) (λ x. 0) (λ x. 0) b (c page) (rest page).1 refl
                          (λ x. omega arith) (ground arith) refl (λ j h. ground arith) m,
                    )
              ]
      ]

kernel_end-Adds :
    (k : Kernel) (n i next : ℕ) (b : Build) (r : Option ℕ × Build)
    → KernelDone n i b r
    → Added i n next b (map_kernel_end k i n r)
unfolding map_kernel_end
kernel_end-Adds k n i next b (some at, c) done e = absurd (cc e)
kernel_end-Adds k n i next b (none, c) done e =
    let (l, a) = done refl in
    (
      cc e,
      record {
        mapped = a.mapped;
        pinned = λ x. omega (arith, a.pinned x, ap (λ y. pages_of y x) l);
        fault = a.fault;
        frame = a.frame;
      },
    )

tg_req_map_kernel_pages-Adds :
    (k : Kernel) (i : ℕ) (s : TgBuffer) (n next : ℕ) (b : Build)
    → Added i n next b (tg_req_map_kernel_pages k i s n b)
unfolding tg_req_map_kernel_pages
tg_req_map_kernel_pages-Adds k i s n next b =
    kernel_end-Adds k n i next b (map_kernel_loop k n 0 s.va i b)
      (map_kernel_loop-done k n 0 s.va i b)

-- `get_user_pages` gets no more pages than it is asked for.
abbrev pub GetsAtMost : Kernel → Type 0
GetsAtMost k = (va n : ℕ) → length (k.user_pages va n) ≤ n

-- What a result for one buffer says if it succeeds.
abbrev BufferDone : ℕ → TgBuffer → ℕ → Build → Option ℕ × Build → Type 0
BufferDone i s next b (done, c) =
    done ≡ some next
    → (next ≡ (if s.byte_count == 0 then i + 2 else i + 2 + span_pages s.va s.byte_count))
      × Adds i
          (λ x.
            if s.byte_count == 0
            then 0
            else in_words x c.words (i + 2) (span_pages s.va s.byte_count))
          b c

-- The two words of the header stand before the pages.
header-Adds :
    (i va count : ℕ) (mappings : ℕ → ℕ) (b d : Build)
    → Adds (i + 2) mappings (write (i + 1) count (write i va b)) d
    → Adds i mappings b d
header-Adds i va count mappings b d a = record {
  mapped = a.mapped;
  pinned = a.pinned;
  fault = a.fault;
  frame = λ j h. a.frame j (omega arith) ∙ ground arith;
}

map_buffer-done :
    (k : Kernel) (kernel : Bool) (i : ℕ) (s : TgBuffer) (next : ℕ) (b : Build)
    → GetsAtMost k
    → BufferDone i s next b (map_buffer k kernel i s b)
unfolding map_buffer
map_buffer-done k kernel i s next b few =
    let n = span_pages s.va s.byte_count in
    let size = s.byte_count + s.writable % 2 * 2 ^ 32 in
    let c = write (i + 1) size (write i s.va b) in
    elim (Bool-cases (s.byte_count == 0)) [
      | inl empty ↦ rw empty (λ e. (
        cc e,
        record {
          mapped = λ x. omega arith;
          pinned = λ x. omega arith;
          fault = refl;
          frame = λ j h. ground arith;
        },
      ))
      | inr full ↦
          rw full
            (elim kernel
              as (λ t.
                let r =
                  if t
                  then tg_req_map_kernel_pages k (i + 2) s n c
                  else tg_req_map_user_pages k (i + 2) s n c in
                r.0 ≡ some next
                → (next ≡ i + 2 + n) × Adds i (λ x. in_words x r.1.words (i + 2) n) b r.1) [
                  | true ↦ λ e.
                      let (at, a) = tg_req_map_kernel_pages-Adds k (i + 2) s n next c e in
                      (
                        at,
                        header-Adds i s.va size
                            (λ x.
                              in_words x (tg_req_map_kernel_pages k (i + 2) s n c).1.words (i + 2)
                                n)
                            b (tg_req_map_kernel_pages k (i + 2) s n c).1 a,
                      )
                  | false ↦ λ e.
                      let (at, a) =
                        tg_req_map_user_pages-Adds k (i + 2) s n next c (omega arith) (few s.va n)
                          e in
                      (
                        at,
                        header-Adds i s.va size
                            (λ x.
                              in_words x (tg_req_map_user_pages k (i + 2) s n c).1.words (i + 2) n)
                            b (tg_req_map_user_pages k (i + 2) s n c).1 a,
                      )
                ])
    ]

-- The mappings of one buffer, before those of the others.
Adds-first :
    (i next : ℕ) (s : TgBuffer) (ss : List TgBuffer) (b c d : Build)
    → (next ≡ (if s.byte_count == 0 then i + 2 else i + 2 + span_pages s.va s.byte_count))
      × Adds i
          (λ x.
            if s.byte_count == 0
            then 0
            else in_words x c.words (i + 2) (span_pages s.va s.byte_count))
          b
          c
    → Adds next (λ x. in_buffers x d.words next ss) c d
    → Adds i (λ x. in_buffers x d.words i (s ∷ ss)) b d
Adds-first i next s ss b c d (at, a) rest =
    let n = span_pages s.va s.byte_count in
    let kept = λ (full : s.byte_count == 0 ≡ false) (x : ℕ).
      in_words_frame x (i + 2) n d.words c.words
        (λ j l h. rest.frame j (ground (arith, at, full))) in
    record {
      mapped = λ x. elim (Bool-cases (s.byte_count == 0)) [
        | inl empty ↦ ground (arith, at, a.mapped x, rest.mapped x, empty)
        | inr full ↦ ground (arith, at, a.mapped x, rest.mapped x, kept full x)
      ];
      pinned = λ x. omega (arith, a.pinned x, rest.pinned x);
      fault = rest.fault ∙ a.fault;
      frame = λ j h. rest.frame j (ground (arith, at)) ∙ a.frame j h;
    }

pub map_buffers-done :
    (k : Kernel) (kernel_bufs nbuf i : ℕ) (ss : List TgBuffer) (b : Build)
    → GetsAtMost k
    → let r = map_buffers k kernel_bufs nbuf i ss b in
      r.0 ≡ none → Adds i (λ x. in_buffers x r.1.words i ss) b r.1
unfolding map_buffers
map_buffers-done k kernel_bufs nbuf i [] b few = λ e. record {
  mapped = λ x. omega arith;
  pinned = λ x. omega arith;
  fault = refl;
  frame = λ j h. refl;
}
map_buffers-done k kernel_bufs nbuf i (s ∷ ss) b few =
    let kernel = prltg_buf_is_kernelspace kernel_bufs nbuf in
    let r = map_buffer k kernel i s b in
    let rest = λ (next : ℕ). map_buffers k kernel_bufs (nbuf + 1) next ss r.1 in
    let out : Option ℕ → Option ℕ × Build =
      λ o. elim o [ none ↦ (some nbuf, r.1) | some next ↦ rest next ] in
    elim r.0
        as (λ o.
          r.0 ≡ o
          → (out o).0 ≡ none
          → Adds i (λ x. in_buffers x (out o).1.words i (s ∷ ss)) b (out o).1) [
            | none ↦ λ failed e. absurd (cc e)
            | some next ↦ λ done e.
                Adds-first i next s ss b r.1 (rest next).1
                  (map_buffer-done k kernel i s next b few done)
                  (map_buffers-done k kernel_bufs (nbuf + 1) next ss r.1 few e)
          ]
      refl
