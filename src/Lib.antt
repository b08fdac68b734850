-- ===== src/Lib.antt =====
-- Verification of the group controller gc20, the controller of electronic road signs that speaks
-- the protocol TSI-SP-003 with a traffic management centre.
--
-- The program. Bytes from the centre arrive at a line and climb a stack of layers: the data link
-- cuts packets out of them, the network layer checks address, checksum and sequence numbers and
-- keeps the session, the presentation layer turns hexadecimal text into bytes, and the application
-- handles messages. An answer takes the same way down. The application stores frames, messages and
-- plans in tables that are kept in configuration files, and receives new firmware in packets. The
-- controller answers the commands from its tables and its groups. Groups of signs choose what to
-- display from the commands of the centre, the facility switch, the external inputs and the
-- schedule of the week, where their power and their errors allow it; errors go to a log. Below all
-- this are conversions, checksums, bits, timers and buffers.
--
-- Files and what they model, by the paths of the repository:
--   Utils/Check, Utils/Cnvt, Utils/Crc   classes Check, Cnvt, Crc of src/module/Utils.cpp
--   Utils/Bits                           BitOffset and Bits of src/module/Utils.cpp
--   Module/FacilitySwitch                src/module/FacilitySwitch.cpp (PeriodicRun)
--   Module/BootTimer                     src/module/BootTimer.cpp (Setms, Setus, IsExpired, Clear)
--   Module/Debounce                      include/module/Debounce.h and State5 of
--                                        include/module/Utils.h
--   Module/RingBuf                       include/module/RingBuf.h (Push, Pop, Reset)
--   Tsisp003/Mi, Tsisp003/AppError       the enumerations of include/tsisp003/TsiSp003Const.h
--   Tsisp003/Memory                      the buffers that the code reads through pointers
--   Tsisp003/Message, Tsisp003/Plan      Init and ToArray of src/tsisp003/Message.cpp and Plan.cpp
--   Tsisp003/Frame                       src/tsisp003/Frame.cpp: the constructors with their
--                                        checks, and ToStringVector
--   Tsisp003/Commands                    src/tsisp003/TsiSp003AppVer21.cpp and
--                                        TsiSp003AppVer50.cpp: Rx and the handlers, and
--                                        UserDefinedCmd of src/tsisp003/UserDefinedCmd.cpp
--   Tsisp003/Session                     Rx, StartSession, Password, EndSession, MakePassword,
--                                        Reject, Ack of src/tsisp003/TsiSp003App.cpp
--   Tsisp003/Upgrade                     FileInfo, FilePacket, Start of src/tsisp003/Upgrade.cpp
--   Sign/Schedule                        src/sign/Group.cpp: EnDisPlan, EnablePlan, DisablePlan,
--                                        LoadPlanToPlnMin, IsEnPlanOverlap, IsPlanActive,
--                                        IsPlanEnabled, and the plans of src/uci/GrpProc.cpp
--   Sign/Display                         src/sign/Group.cpp: DispNext, DispExt, DispBackup,
--                                        LoadDsNext, IsDsNextEmergency, NormalMode, and
--                                        include/sign/DispStatus.h
--   Sign/Command                         src/sign/Group.cpp: DispChk, DispFrm, DispMsg, DispMode,
--                                        SignTestDispFrm
--   Sign/Power                           src/sign/Group.cpp: PowerFunc, FcltSwitchFunc, SetPower
--   Sign/Controller                      src/sign/Controller.cpp, with its children Store
--                                        (SignSetFrame, SignSetMessage, SignSetPlan), Devices
--                                        (dimming, power, device), Lanes and Atomic (CmdDispFrm,
--                                        CmdDispMsg, CmdDispAtomicFrm, CheckAdjacentLane, and
--                                        src/sign/GroupIslus.cpp), Plans, Reset, Clock
--                                        (CmdUpdateTime) and SignTest (CmdSignTest)
--   Sign/DeviceError                     src/sign/DeviceError.cpp
--   Uci/UciFault                         src/uci/UciFault.cpp: Push, Reset, GetLog, GetFaultLog20,
--                                        and PutLocalTime of src/module/Utils.cpp
--   Uci/UciFrm                           src/uci/UciFrm.cpp: SetFrm, SaveFrm, LoadConfig, Reset
--   Uci/UciMsg, Uci/UciPln               src/uci/UciMsg.cpp and UciPln.cpp: SetMsg, SaveMsg,
--                                        LoadConfig, Reset, IsMsgFlashing, and the same for plans
--   Layer/DtLk                           src/layer/LayerDtLk.cpp (Rx, ClrRx)
--   Layer/Nts                            src/layer/LayerNTS.cpp (Rx, Tx, Session and what they call)
--   Layer/Prst                           src/layer/LayerPrst.cpp (Rx, Tx)
--   Layer/Slv                            src/layer/LayerSlv.cpp (Rx, Tx)
--   Common                               lists, Boolean tests and words that all of these share
-- A module below one of these holds lemmas; one named Tests or Runs holds runs and instances.
--
-- How the code is rendered. Numbers are natural numbers; a uint8_t, uint16_t or uint32_t wraps
-- where the code lets it, written out as a remainder. A method that changes its object returns the
-- new state; a result -1 is `none`; an APP::ERROR is returned beside the state. A buffer that is
-- read through a pointer is a function from offsets to bytes, total since the code reads on behind
-- the length it was given; a buffer that is written is the list written. Loops are recursion on the
-- list or the count that bounds them. Only the loops over the minutes of an entry run on fuel, of
-- 10080 rounds, the minutes of the week; an entry with valid times takes at most 1440 of them. A
-- command that runs out of that fuel comes back with `none`. The clock, random numbers, the
-- settings and the handler of the layer above are arguments, for messages and plans by themselves
-- also the definitions of frames (the controller gives its table), and so are the results of system
-- calls, the pins, the local time of a clock time, and whether a frame or a message flashes.
-- LayerNTS records the packets and the calls of other objects in order. Where LayerNTS reads behind
-- a local array, the byte it finds is an argument.
--
-- Not modelled: debug output and ToString, the files of the UCI library, GPIO, the serial and
-- network drivers, the web socket server, the tasks of a group that send frames to its slaves, the
-- bitmaps of frames, the bytes of the replies about status and configuration, the handlers of
-- UserDefinedCmd but those of the reset of the logs and of the sign test (the others are
-- arguments), the shell commands of an upgrade, the reading of the fault log from its file, and the
-- remaining tables of src/uci. The bounds of the output buffers of LayerNTS and LayerSlv and the
-- queue that logs packets are left out.
pub mod Common
pub mod Utils
pub mod Module
pub mod Tsisp003
pub mod Uci
pub mod Layer
pub mod Sign
