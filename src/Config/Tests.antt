-- ===== src/Config/Tests.antt =====
-- The theorem about the reader of configurations, on a small file.
use mulch.Prelude.{some, []}
use mulch.Config.Samples.{outside, accepted, settings-accepted}
use mulch.Config.Valid.{IsVmConfig}
use mulch.Config.Accepts.{new_vm_config-IsVmConfig}

new_vm_config-IsVmConfig_example : IsVmConfig outside accepted
new_vm_config-IsVmConfig_example =
    new_vm_config-IsVmConfig outside (some []) accepted settings-accepted
