-- ===== src/Iec61850/Ops/Listed.antt =====
-- The device directory of iec61850/ops.py lists the devices in their order, with their children.
use mathlib.Core.Path.{subst}
use industrial_aiops_energy.Prelude.{
  ℕ, ◌≤◌, ◌≡◌, refl, sym, ap, ◌∙◌, arith, Bool, true, false, Option, none, some, List, [], ◌∷◌, map,
  take, length, Text, length-take_le,
}
use industrial_aiops_energy.Python.{Runtime, text, Result, ok, raise}
use industrial_aiops_energy.Shared.{Shared}
use industrial_aiops_energy.Targets.{Target}
use industrial_aiops_energy.Waiting.{Clock}
use industrial_aiops_energy.Sessions.Action.{State}
use industrial_aiops_energy.Iec61850.Binding.{Binding}
use industrial_aiops_energy.Iec61850.Browse.{get_logical_devices, get_data_directory}
use industrial_aiops_energy.Iec61850.Connection.{Dialer}
use industrial_aiops_energy.Iec61850.Read.{MmsBinding}
use industrial_aiops_energy.Iec61850.Ops.{
  Adapter, mms_library, chain, DeviceRow, Directory, device_row, browse_device, device_rows,
  list_devices, directory_report, iec61850_device_directory,
}
use industrial_aiops_energy.Iec61850.Ops.Answers.{FromIed, answered-FromIed}

-- A chain that returned did so in both parts.
chain-ok :
    {A B : Type 0} (first : Result A × List ℕ) (next : A → List ℕ → Result B × List ℕ) (b : B)
    (freed' : List ℕ)
    → chain first next ≡ (ok b, freed')
    → (a : A) × (freed : List ℕ) × (first ≡ (ok a, freed)) × (next a freed ≡ (ok b, freed'))
chain-ok (ok a, freed) next b freed' h = (a, freed, refl, h)
chain-ok (raise e, freed) next b freed' h = absurd (ground arith)

module _ (rt : Runtime) (sh : Shared) (lib : Binding) (mms : MmsBinding) (target : Target) where
  -- The children of a row: none where they were not asked for, else those that browsing the device
  -- gave, 2000 at most, with their number.
  abbrev pub HasChildren : Bool → Text → DeviceRow → List ℕ → List ℕ → Type 0
  HasChildren false ld row freed mid = (row.children ≡ none) × (freed ≡ mid)
  HasChildren true ld row freed mid =
      (names : List Text) × (get_data_directory lib ld freed ≡ (ok names, mid))
      × (row.children
          ≡ some (map (λ c. sh.s (text c) 128) (take 2000 names), length (take 2000 names)))

  -- One row for each device, in their order; the lists that are freed pass through.
  abbrev pub Listed : Bool → List Text → List DeviceRow → List ℕ → List ℕ → Type 0
  Listed include_children [] [] freed freed' = freed ≡ freed'
  Listed include_children [] (row ∷ rows) freed freed' = ⊥
  Listed include_children (ld ∷ lds) [] freed freed' = ⊥
  Listed include_children (ld ∷ lds) (row ∷ rows) freed freed' =
      (mid : List ℕ) × (row.logical_device ≡ sh.s (text ld) 128)
      × HasChildren include_children ld row freed mid
      × Listed include_children lds rows mid freed'

  device_row-HasChildren :
      (include_children : Bool) (ld : Text) (kids : Option (List Text)) (freed mid : List ℕ)
      → browse_device rt sh lib mms target include_children ld freed ≡ (ok kids, mid)
      → HasChildren include_children ld (device_row rt sh lib mms target ld kids) freed mid
  unfolding browse_device device_row
  device_row-HasChildren false ld none freed mid h = (refl, ground arith)
  device_row-HasChildren false ld (some names) freed mid h = absurd (ground arith)
  device_row-HasChildren true ld none freed mid h =
      let (names, f, first, next) = chain-ok (get_data_directory lib ld freed) _ none mid h in
      absurd (ground arith)
  device_row-HasChildren true ld (some names) freed mid h =
      let (given, f, first, next) =
        chain-ok (get_data_directory lib ld freed) _ (some names) mid h in
      (names, ground arith, refl)

  logical_device-row :
      (ld : Text) (kids : Option (List Text))
      → (device_row rt sh lib mms target ld kids).logical_device ≡ sh.s (text ld) 128
  unfolding device_row
  logical_device-row ld none = refl
  logical_device-row ld (some names) = refl

  device_rows-Listed :
      (include_children : Bool) (lds : List Text) (rows : List DeviceRow) (freed freed' : List ℕ)
      → device_rows rt sh lib mms target include_children lds freed ≡ (ok rows, freed')
      → Listed include_children lds rows freed freed'
  unfolding device_rows
  device_rows-Listed include_children [] [] freed freed' h = ground arith
  device_rows-Listed include_children [] (row ∷ rows) freed freed' h = absurd (ground arith)
  device_rows-Listed include_children (ld ∷ lds) rows freed freed' h =
      let row = device_row rt sh lib mms target ld in
      let (kids, mid, first, next) =
        chain-ok (browse_device rt sh lib mms target include_children ld freed) _ rows freed' h in
      let (tail, last, later, made) =
        chain-ok (device_rows rt sh lib mms target include_children lds mid)
          (λ tail f. (ok (row kids ∷ tail), f)) rows freed' next in
      let same : row kids ∷ tail ≡ rows = ground arith in
      let freed_last : last ≡ freed' = ground arith in
      subst (λ xs. Listed include_children (ld ∷ lds) xs freed freed') same
        (
          mid,
          logical_device-row ld kids,
          device_row-HasChildren include_children ld kids freed mid first,
          subst (Listed include_children lds tail mid) freed_last
              (device_rows-Listed include_children lds tail mid last later),
        )

  length-Listed :
      (include_children : Bool) (lds : List Text) (rows : List DeviceRow) (freed freed' : List ℕ)
      → Listed include_children lds rows freed freed'
      → length rows ≡ length lds
  length-Listed include_children [] [] freed freed' h = refl
  length-Listed include_children [] (row ∷ rows) freed freed' h = absurd h
  length-Listed include_children (ld ∷ lds) [] freed freed' h = absurd h
  length-Listed include_children (ld ∷ lds) (row ∷ rows) freed freed' (mid, _, _, rest) =
      omega (arith, length-Listed include_children lds rows mid freed' rest)

  list_devices-Listed :
      (include_children : Bool) (rows : List DeviceRow) (freed' : List ℕ)
      → list_devices rt sh lib mms target include_children [] ≡ (ok rows, freed')
      → (lds : List Text) × (freed : List ℕ) × (get_logical_devices lib [] ≡ (ok lds, freed))
        × Listed include_children (take 2000 lds) rows freed freed'
  unfolding list_devices
  list_devices-Listed include_children rows freed' h =
      let (lds, freed, first, next) = chain-ok (get_logical_devices lib []) _ rows freed' h in
      (
        lds,
        freed,
        first,
        device_rows-Listed include_children (take 2000 lds) rows freed freed' next,
      )

  module _ (dialer : Dialer) (import_pyiec61850 : Result Bool) (clock : Clock Adapter) where
    -- A directory that returns has a row for each of the first 2000 logical devices that the device
    -- named, in their order, and their number, 2000 at most; a row has no children where they were not
    -- asked for, and else the children that browsing its device gave, without an exception, 2000 at
    -- most, and their number. The names were read from the target on a connection whose dialling
    -- succeeded, and which was closed.
    pub iec61850_device_directory-Listed :
        (include_children : Bool) (d : Directory) (st st' : State Adapter)
        → iec61850_device_directory rt sh lib mms target
            (mms_library dialer import_pyiec61850 clock)
            include_children
            st
          ≡ some (ok d, st')
        → (lds : List Text) × (freed : List ℕ) × (get_logical_devices lib [] ≡ (ok lds, freed))
          × Listed include_children (take 2000 lds) d.logical_devices freed st'.world.freed
          × (d.logical_device_count ≡ length (take 2000 lds))
          × (d.logical_device_count ≤ 2000)
          × FromIed dialer import_pyiec61850 clock rt target
              (list_devices rt sh lib mms target include_children)
              d.logical_devices
              st'
    unfolding iec61850_device_directory directory_report
    iec61850_device_directory-Listed include_children d st st' h =
        let list = list_devices rt sh lib mms target include_children in
        let (devices, same, from) =
          answered-FromIed dialer import_pyiec61850 clock rt target sh lib mms list
            (directory_report rt sh lib mms target) d st st' h in
        let rows : devices ≡ d.logical_devices = sym (ap (λ r. r.logical_devices) same) in
        let kept =
          subst (λ xs. FromIed dialer import_pyiec61850 clock rt target list xs st') rows from in
        let (lds, freed, first, listed) =
          list_devices-Listed include_children d.logical_devices st'.world.freed kept.1 in
        let counted : d.logical_device_count ≡ length d.logical_devices =
          ap (λ r. r.logical_device_count) same ∙ ap length rows in
        let measured =
          length-Listed include_children (take 2000 lds) d.logical_devices freed st'.world.freed
            listed in
        (
          lds,
          freed,
          first,
          listed,
          counted ∙ measured,
          omega (arith, counted, measured, length-take_le 2000 lds),
          kept,
        )
