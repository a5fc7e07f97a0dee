-- ===== src/Examples/Planes.antt =====
-- Small runs of dask_backend/transport.py and of the varints of submit/services.py.
use graphed_executors.Prelude.{
  Bool, inl, ℕ, ◌<◌, ◌≤◌, ◌≡◌, ◌⊎◌, refl, arith, [], ◌∷◌, ◌++◌, some, true, false, All, length,
  nat_eq,
}
use graphed_executors.Prelude.Dict.{get, put}
use graphed_executors.Submit.Varint.{varint, read_varint, read-varint}
use graphed_executors.Dask.Plane.{
  PlaneRun, Plugin, new_run, ensure_run, on_recv, store_block, on_block_pull, wires, key_error,
  Opened, open_pull, finish_pull, read_files, files_now, purge,
}
use graphed_executors.Dask.Plane.Received.{on_recv_inbox}
use graphed_executors.Dask.Plane.Served.{store-pull}

-- 300 takes two bytes, 172 and 2.
read-varint_example :
    (read_varint (varint 300 ++ 8 ∷ []) ≡ some (300, 8 ∷ [])) × All (λ b. b < 256) (varint 300)
read-varint_example = read-varint 300 (8 ∷ [])

-- An epoch with room for one message, a digest of a number being the number.
abbrev one_epoch : Plugin ℕ ℕ ℕ
one_epoch =
    ensure_run (record { runs = []; stale_epoch_rejects = 0; inject_recv_failures = [] }) 4 1

abbrev own : ℕ → ℕ
own x = x

epoch_held : get one_epoch.runs 4 ≡ some (new_run 1)
unfolding ensure_run get put
epoch_held = refl

on_recv_inbox_example :
    (run : PlaneRun ℕ ℕ ℕ) × (get (on_recv own own one_epoch 2 4 9).0.runs 4 ≡ some run)
    × ((((on_recv own own one_epoch 2 4 9).1.accepted ≡ true)
          × (run.inbox ≡ (new_run {M = ℕ} {W = ℕ} {D = ℕ} 1).inbox ++ (2, 9) ∷ []))
        ⊎ (((on_recv own own one_epoch 2 4 9).1.accepted ≡ false)
            × (run.inbox ≡ (new_run {M = ℕ} {W = ℕ} {D = ℕ} 1).inbox)
            × ((new_run {M = ℕ} {W = ℕ} {D = ℕ} 1).inbox_maxsize
                ≤ length (new_run {M = ℕ} {W = ℕ} {D = ℕ} 1).inbox)))
    × (length run.inbox ≤ (new_run {M = ℕ} {W = ℕ} {D = ℕ} 1).inbox_maxsize)
on_recv_inbox_example =
    on_recv_inbox own own one_epoch 2 4 9 (new_run 1) epoch_held (unfold ensure_run get in refl)
      (unfold new_run in omega arith) (unfold new_run in omega arith)

-- The plane is purged before the second, overlapping pull ends.
store-pull_example :
    (p p' : Plugin ℕ ℕ ℕ) × (o : Opened ℕ ℕ) × (store_block own one_epoch 4 7 50 false ≡ some p)
    × (open_pull p 4 (7 ∷ []) ≡ (p, some o))
    × (on_block_pull own p 4 (7 ∷ []) ≡ (p', wires (50 ∷ [])))
    × ((on_block_pull own p' 4 (7 ∷ [])).1 ≡ key_error)
    × ((◌≡◌ {A = Bool} false true)
        ⊎ ((finish_pull own
              (purge one_epoch 4)
              4
              (7 ∷ [])
              o
              (read_files (files_now (purge one_epoch 4) 4) o.paths)).1
            ≡ wires (50 ∷ [])))
store-pull_example =
    store-pull own one_epoch (purge one_epoch 4) 4 (new_run 1) 7 50 false epoch_held (inl refl)
